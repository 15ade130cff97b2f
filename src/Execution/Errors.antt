-- ===== src/Execution/Errors.antt =====
-- Which invocations find the generation stale.
use go_mamacord.Base.{
  ◌≡◌, refl, ◌⊎◌, inl, inr, ◌≢◌, ◌↔◌, Bool, true, false, not, ◌||◌, Option, none, some, List, arith,
  is_nil, GoString, lookup, if◌then◌else◌,
}
use go_mamacord.Contract.Verdict.{valid, Result, ok, error, verdict_of}
use go_mamacord.Contract.Inputs.{Invocation, check, is_kind}
use go_mamacord.Contract.Operation.{Operation, Capability, storage_kv}
use go_mamacord.Contract.Catalog.{Catalog}
use go_mamacord.Contract.Catalog.Match.{resolve}
use go_mamacord.Contract.Catalog.Outcome.{validate_outcome}
use go_mamacord.Execution.{
  ErrorKind, validation_error, stale_generation, invalid_result, invoke, Run, Cause, no_cause,
  deadline_cause, other_cause, kind_by_cause, step_limit, classify, Executed, done, failed, require,
  is_valid, Program, Budget, invoke_budget, allows, grants, settle, invoke_result, invoke_callable,
  invoke_catalog, invoke_program,
}
use go_mamacord.Execution.Laws.{is_valid_iff}

require-failed {ℓ} :
    {A : Type ℓ} (b : Bool) (k j : ErrorKind) (m : Executed A)
    → k ≢ j
    → require b k m ≡ failed j
    → (b ≡ true) × (m ≡ failed j)
require-failed true k j m d h = (refl, h)
require-failed false k j m d h = let same : k ≡ j = cc h in absurd (d same)

classify-not_stale {ℓ} : {V : Type ℓ} (r : Run V) → classify invoke r ≢ stale_generation
unfolding classify
classify-not_stale r h = go r.step_limit_hit r.cause h
  where
    go :
        (b : Bool) (c : Cause)
        → (if b then step_limit else kind_by_cause c invoke) ≢ stale_generation
    go true c k = cc
    go false no_cause k = cc
    go false deadline_cause k = cc
    go false other_cause k = cc

module _ {ℓ κ} {C : Type ℓ} {V : Type κ} (is_https : GoString → Bool)
    (run : C → Budget → Invocation → Run V)
    (lower_outcome : V → Invocation → Result (List (Option Operation))) where
  settle-not_stale :
      (c : Catalog) (i : Invocation) (granted : List Capability)
      (m : Result (List (Option Operation)))
      → settle is_https run c i granted m ≢ failed stale_generation
  settle-not_stale c i granted (error e) h = cc
  settle-not_stale c i granted (ok os) h =
      let (a, e) =
        require-failed (is_valid (validate_outcome is_https c i os)) invalid_result stale_generation
          _ (λ q. cc) h in
      let (b, f) =
        require-failed (grants granted os) validation_error stale_generation (done os) (λ q. cc)
          e in
      cc f

  stale_callable :
      (p : Program C) (c : Catalog) (i : Invocation) (granted : List Capability) (o : Option C)
      → invoke_callable is_https run lower_outcome p.limits c i granted o ≡ failed stale_generation
      → o ≡ none
  stale_callable p c i granted none h = refl
  stale_callable p c i granted (some f) h =
      let r = run f (invoke_budget p.limits i) i in absurd (go r r.result h)
    where
      go :
          (r : Run V) (o : Option V)
          → invoke_result is_https run lower_outcome c i granted r o ≢ failed stale_generation
      go r none k =
          let same : classify invoke r ≡ stale_generation = cc k in classify-not_stale r same
      go r (some v) k = settle-not_stale c i granted (lower_outcome v i) k

  -- The catalog knows the invocation, but no callable stands at its route.
  abbrev pub IsUnrouted : Program C → Invocation → List Capability → Type ℓ
  IsUnrouted p i granted =
      (c : Catalog) × (p.catalog ≡ some c)
      × (verdict_of (resolve c i) ≡ valid)
      × ((is_nil i.state || allows granted storage_kv) ≡ true)
      × (lookup i.route p.routes ≡ none)

  stale_catalog :
      (p : Program C) (i : Invocation) (granted : List Capability) (o : Option Catalog)
      → invoke_catalog is_https run lower_outcome p i granted o ≡ failed stale_generation
      → (o ≡ none)
        ⊎ ((c : Catalog) × (o ≡ some c)
            × (verdict_of (resolve c i) ≡ valid)
            × ((is_nil i.state || allows granted storage_kv) ≡ true)
            × (lookup i.route p.routes ≡ none))
  stale_catalog p i granted none h = inl refl
  stale_catalog p i granted (some c) h =
      let (a, e) =
        require-failed (is_valid (verdict_of (resolve c i))) validation_error stale_generation _
          (λ q. cc) h in
      let (b, f) =
        require-failed (is_nil i.state || allows granted storage_kv) validation_error
          stale_generation _ (λ q. cc) e in
      inr (
        c,
        refl,
        (is_valid_iff (verdict_of (resolve c i))).0 a,
        b,
        stale_callable p c i granted (lookup i.route p.routes) f,
      )

  -- Running an invocation reports a stale generation exactly if it is no check and the program has no
  -- catalog, or the catalog resolves it and its state input is granted but no callable stands at its
  -- route; so no error of the plugin's code or of its result is reported so.
  pub invoke_program-stale_iff :
      (p : Program C) (i : Invocation) (granted : List Capability)
      → (invoke_program is_https run lower_outcome p i granted ≡ failed stale_generation)
        ↔ ((is_kind check i ≡ false) × ((p.catalog ≡ none) ⊎ IsUnrouted p i granted))
  unfolding invoke_program
  invoke_program-stale_iff p i granted = (
    λ h.
        let (a, e) =
          require-failed (not (is_kind check i)) validation_error stale_generation _ (λ q. cc) h in
        (ground (arith), stale_catalog p i granted p.catalog e),
    λ h. elim h.1 [
      | inl absent ↦ simp (h.0, absent) refl
      | inr u ↦
          let (c, present, resolved, stateful, gone) = u in
          simp (h.0, present, resolved, stateful, gone) refl
    ],
  )
