-- ===== src/Execution.antt =====
-- internal/runtime/plugins/starlark: the limits and the errors of an evaluation
-- (internal/evaluation), and how a generation's program runs an invocation or a check
-- (generation/execution.go). The Starlark interpreter is the parameter `run`; the lowering of its
-- result to an outcome or a decision is a parameter too.
pub mod Laws
pub mod Errors
pub mod Decisions
mod Tests
use go_mamacord.Base.{
  ℕ, Bool, true, false, not, ◌&&◌, ◌||◌, Option, none, some, List, [], ◌∷◌, ltb, ◌==◌,
  if◌then◌else◌, any, all, is_nil, GoString, Map, lookup, ℤ, is_positive, ltb_ℤ, is_below, pos,
}
use go_mamacord.Contract.Verdict.{
  Verdict, valid, invalid, ◌>>◌, refuse_if, Result, ok, error, verdict_of,
}
use go_mamacord.Contract.Inputs.{Invocation, InvocationKind, check, autocomplete, is_kind}
use go_mamacord.Contract.Operation.{
  Operation, Capability, storage_kv, storage_user_settings, storage_check_ins, storage_reminders,
  storage_warnings, storage_audit, discord_users, discord_guilds, discord_messages, discord_members,
  discord_channels, discord_roles, discord_emojis, discord_stickers, network_http, resources_read,
  required_capabilities,
}
use go_mamacord.Contract.Catalog.{Catalog}
use go_mamacord.Contract.Catalog.Match.{resolve}
use go_mamacord.Contract.Catalog.Outcome.{validate_outcome, validate_check_decision, CheckDecision}

pub data ErrorKind : Type 0 where
  source_error compile_error load_error initialize_error setup_error validation_error : ErrorKind
  invocation_error step_limit deadline canceled stale_generation invalid_result : ErrorKind

pub record Limits : Type 0 where
  pub max_file_bytes : ℤ
  pub max_total_source_bytes : ℤ
  pub max_modules : ℤ
  pub max_load_depth : ℤ
  pub init_steps : ℕ
  pub init_timeout : ℤ
  pub invoke_steps : ℕ
  pub invoke_timeout : ℤ
  pub check_steps : ℕ
  pub check_timeout : ℤ
  pub max_prints : ℤ
  pub max_print_bytes : ℤ
  pub max_host_calls : ℤ

-- Times are in nanoseconds.
abbrev pub default_limits : Limits
default_limits = record {
  max_file_bytes = pos 262144;
  max_total_source_bytes = pos 1048576;
  max_modules = pos 64;
  max_load_depth = pos 32;
  init_steps = 250000;
  init_timeout = pos 500000000;
  invoke_steps = 1000000;
  invoke_timeout = pos 2000000000;
  check_steps = 100000;
  check_timeout = pos 250000000;
  max_prints = pos 20;
  max_print_bytes = pos 1024;
  max_host_calls = pos 100;
}

unfoldable pub validate_limits : Limits → Verdict
validate_limits l =
    refuse_if
      (not (is_positive l.max_file_bytes) || ltb_ℤ l.max_total_source_bytes l.max_file_bytes)
      "source byte limits are invalid"
    >> refuse_if (not (is_positive l.max_modules) || not (is_positive l.max_load_depth))
        "module limits are invalid"
    >> refuse_if (l.init_steps == 0 || l.invoke_steps == 0 || l.check_steps == 0)
        "execution step limits must be positive"
    >> refuse_if
        (not (is_positive l.init_timeout)
          || not (is_positive l.invoke_timeout)
          || not (is_positive l.check_timeout))
        "execution timeouts must be positive"
    >> refuse_if
        (is_below l.max_prints 0
          || not (is_positive l.max_print_bytes)
          || not (is_positive l.max_host_calls))
        "print or host-call limits are invalid"

pub data Phase : Type 0 where
  initialize setup invoke checking : Phase

abbrev pub kind_for_phase : Phase → ErrorKind
kind_for_phase initialize = initialize_error
kind_for_phase setup = setup_error
kind_for_phase _ = invocation_error

-- Why the context of an execution ended, if it did.
pub data Cause : Type 0 where
  no_cause deadline_cause other_cause : Cause

-- What a call of the interpreter leaves: its value, or an error, with the state of the execution.
pub record Run {ℓ} (V : Type ℓ) : Type ℓ where
  pub result : Option V
  pub step_limit_hit : Bool
  pub cause : Cause

abbrev pub kind_by_cause : Cause → Phase → ErrorKind
kind_by_cause deadline_cause p = deadline
kind_by_cause other_cause p = canceled
kind_by_cause no_cause p = kind_for_phase p

-- `Classify` of an error.
unfoldable pub classify {ℓ} : {V : Type ℓ} → Phase → Run V → ErrorKind
classify p r = if r.step_limit_hit then step_limit else kind_by_cause r.cause p

abbrev pub capability_code : Capability → ℕ
capability_code storage_kv = 0
capability_code storage_user_settings = 1
capability_code storage_check_ins = 2
capability_code storage_reminders = 3
capability_code storage_warnings = 4
capability_code storage_audit = 5
capability_code discord_users = 6
capability_code discord_guilds = 7
capability_code discord_messages = 8
capability_code discord_members = 9
capability_code discord_channels = 10
capability_code discord_roles = 11
capability_code discord_emojis = 12
capability_code discord_stickers = 13
capability_code network_http = 14
capability_code resources_read = 15

-- `InvocationServices.Allows`
abbrev pub allows : List Capability → Capability → Bool
allows granted c = any (λ g. capability_code g == capability_code c) granted

abbrev pub needs : Option Operation → List Capability
needs none = []
needs (some o) = required_capabilities o

-- The two loops over the operations and their capabilities find none that is not granted.
abbrev pub grants : List Capability → List (Option Operation) → Bool
grants granted os = all (λ o. all (allows granted) (needs o)) os

pub data Executed {ℓ} (A : Type ℓ) : Type ℓ where
  done : A → Executed A
  failed : ErrorKind → Executed A

-- `if !condition { return NewRuntimeError(kind, …) }`
abbrev pub require {ℓ} : {A : Type ℓ} → Bool → ErrorKind → Executed A → Executed A
require true k m = m
require false k m = failed k

abbrev pub is_valid : Verdict → Bool
is_valid valid = true
is_valid (invalid e) = false

-- The code of a generation: its limits, its catalog, which may be absent, and the callables.
pub record Program {ℓ} (C : Type ℓ) : Type ℓ where
  pub limits : Limits
  pub catalog : Option Catalog
  pub routes : Map C

-- The steps and the timeout of a call.
pub record Budget : Type 0 where
  pub steps : ℕ
  pub timeout : ℤ

abbrev pub check_budget : Limits → Budget
check_budget l = record { steps = l.check_steps; timeout = l.check_timeout }

abbrev pub invoke_budget : Limits → Invocation → Budget
invoke_budget l i =
    if is_kind autocomplete i
    then check_budget l
    else record { steps = l.invoke_steps; timeout = l.invoke_timeout }

module _ {ℓ κ} {C : Type ℓ} {V : Type κ} (is_https : GoString → Bool)
    (run : C → Budget → Invocation → Run V) where
  -- The outcome of a value that the callable returned.
  abbrev pub settle :
      Catalog
      → Invocation
      → List Capability
      → Result (List (Option Operation))
      → Executed (List (Option Operation))
  settle c i granted (error e) = failed invalid_result
  settle c i granted (ok os) =
      require (is_valid (validate_outcome is_https c i os)) invalid_result
        (require (grants granted os) validation_error (done os))

  module _ (lower_outcome : V → Invocation → Result (List (Option Operation))) where
    abbrev pub invoke_result :
        Catalog
        → Invocation
        → List Capability
        → Run V
        → Option V
        → Executed (List (Option Operation))
    invoke_result c i granted r none = failed (classify invoke r)
    invoke_result c i granted r (some v) = settle c i granted (lower_outcome v i)

    abbrev pub invoke_callable :
        Limits
        → Catalog
        → Invocation
        → List Capability
        → Option C
        → Executed (List (Option Operation))
    invoke_callable l c i granted none = failed stale_generation
    invoke_callable l c i granted (some f) =
        let r = run f (invoke_budget l i) i in invoke_result c i granted r r.result

    abbrev pub invoke_catalog :
        Program C
        → Invocation
        → List Capability
        → Option Catalog
        → Executed (List (Option Operation))
    invoke_catalog p i granted none = failed stale_generation
    invoke_catalog p i granted (some c) =
        require (is_valid (verdict_of (resolve c i))) validation_error (
          require (is_nil i.state || allows granted storage_kv) validation_error
            (invoke_callable p.limits c i granted (lookup i.route p.routes)))

    -- `invokeProgram`
    unfoldable pub invoke_program :
        Program C → Invocation → List Capability → Executed (List (Option Operation))
    unfolding classify
    invoke_program p i granted =
        require (not (is_kind check i)) validation_error (invoke_catalog p i granted p.catalog)

  module _ (lower_decision : V → Result CheckDecision) where
    abbrev pub settle_decision :
        Catalog → Invocation → Result CheckDecision → Executed CheckDecision
    settle_decision c i (error e) = failed invalid_result
    settle_decision c i (ok d) =
        require (is_valid (validate_check_decision is_https c i d)) invalid_result (done d)

    abbrev pub check_result : Catalog → Invocation → Run V → Option V → Executed CheckDecision
    check_result c i r none = failed (classify checking r)
    check_result c i r (some v) = settle_decision c i (lower_decision v)

    abbrev pub check_callable : Limits → Catalog → Invocation → Option C → Executed CheckDecision
    check_callable l c i none = failed stale_generation
    check_callable l c i (some f) = let r = run f (check_budget l) i in check_result c i r r.result

    abbrev pub check_catalog : Program C → Invocation → Option Catalog → Executed CheckDecision
    check_catalog p i none = failed stale_generation
    check_catalog p i (some c) =
        require (is_valid (verdict_of (resolve c i))) validation_error
          (check_callable p.limits c i (lookup i.route p.routes))

    -- `checkProgram`
    unfoldable pub check_program : Program C → Invocation → Executed CheckDecision
    unfolding classify
    check_program p i = require (is_kind check i) validation_error (check_catalog p i p.catalog)
