-- ===== src/Execution/Laws.antt =====
-- When a program returns an outcome or a decision, and which error it returns otherwise.
use go_mamacord.Base.{
  ◌≡◌, refl, subst, ◌↔◌, Bool, true, false, not, ◌||◌, Option, none, some, List, arith, all, All,
  All-of_all, is_nil, GoString, lookup,
}
use go_mamacord.Contract.Verdict.{Verdict, valid, invalid, Result, ok, error, verdict_of, >>-valid}
use go_mamacord.Contract.Inputs.{Invocation, check, is_kind}
use go_mamacord.Contract.Operation.{Operation, Capability, storage_kv, validate_operations}
use go_mamacord.Contract.Operation.Scope.{OperationHasContext, validate_operations-HasContext}
use go_mamacord.Contract.Invocation.Validate.{validate_invocation}
use go_mamacord.Contract.Catalog.{Catalog}
use go_mamacord.Contract.Catalog.Match.{resolve}
use go_mamacord.Contract.Catalog.Outcome.{validate_outcome, validate_outcome_itself}
use go_mamacord.Execution.{
  ErrorKind, validation_error, invalid_result, Run, Executed, done, require, is_valid, Program,
  Budget, invoke_budget, allows, needs, grants, settle, invoke_result, invoke_callable,
  invoke_catalog, invoke_program,
}

pub require-done {ℓ} :
    {A : Type ℓ} (b : Bool) (k : ErrorKind) (m : Executed A) (a : A)
    → (require b k m ≡ done a) ↔ ((b ≡ true) × (m ≡ done a))
require-done true k m a = (λ h. (refl, h), λ h. h.1)
require-done false k m a = (λ h. cc, λ h. cc h.0)

pub is_valid_iff : (v : Verdict) → (is_valid v ≡ true) ↔ (v ≡ valid)
is_valid_iff valid = (λ h. refl, λ h. refl)
is_valid_iff (invalid e) = (λ h. cc, λ h. cc)

module _ {ℓ κ} {C : Type ℓ} {V : Type κ} (is_https : GoString → Bool)
    (run : C → Budget → Invocation → Run V)
    (lower_outcome : V → Invocation → Result (List (Option Operation))) where
  -- What stands between an invocation and its outcome.
  pub record Passed (p : Program C) (i : Invocation) (granted : List Capability)
      (os : List (Option Operation)) : Type (ℓ ⊔ κ) where
    pub catalog : Catalog
    pub callable : C
    pub value : V
    pub asked : is_kind check i ≡ false
    pub present : p.catalog ≡ some catalog
    pub resolved : verdict_of (resolve catalog i) ≡ valid
    pub stateful : (is_nil i.state || allows granted storage_kv) ≡ true
    pub routed : lookup i.route p.routes ≡ some callable
    pub returned : (run callable (invoke_budget p.limits i) i).result ≡ some value
    pub lowered : lower_outcome value i ≡ ok os
    pub accepted : validate_outcome is_https catalog i os ≡ valid
    pub granted_all : grants granted os ≡ true

  settled :
      (c : Catalog) (i : Invocation) (granted : List Capability) (os : List (Option Operation))
      (m : Result (List (Option Operation)))
      → settle is_https run c i granted m ≡ done os
      → (m ≡ ok os) × (validate_outcome is_https c i os ≡ valid) × (grants granted os ≡ true)
  settled c i granted os (error e) h = cc
  settled c i granted os (ok made) h =
      let outer =
        (require-done (is_valid (validate_outcome is_https c i made)) invalid_result _ os).0 h in
      let inner = (require-done (grants granted made) validation_error (done made) os).0 outer.1 in
      let same : made ≡ os = cc inner.1 in
      subst
        (λ x.
          (ok made ≡ ok x) × (validate_outcome is_https c i x ≡ valid) × (grants granted x ≡ true))
        same (refl, (is_valid_iff (validate_outcome is_https c i made)).0 outer.0, inner.0)

  value_present :
      (c : Catalog) (i : Invocation) (granted : List Capability) (os : List (Option Operation))
      (r : Run V) (o : Option V)
      → invoke_result is_https run lower_outcome c i granted r o ≡ done os
      → (v : V) × (o ≡ some v) × (settle is_https run c i granted (lower_outcome v i) ≡ done os)
  value_present c i granted os r none h = cc
  value_present c i granted os r (some v) h = (v, refl, h)

  callable_present :
      (p : Program C) (c : Catalog) (i : Invocation) (granted : List Capability)
      (os : List (Option Operation)) (o : Option C)
      → invoke_callable is_https run lower_outcome p.limits c i granted o ≡ done os
      → (f : C) × (o ≡ some f)
        × (invoke_result is_https run lower_outcome c i granted
              (run f (invoke_budget p.limits i) i)
              (run f (invoke_budget p.limits i) i).result
            ≡ done os)
  callable_present p c i granted os none h = cc
  callable_present p c i granted os (some f) h = (f, refl, h)

  catalog_present :
      (p : Program C) (i : Invocation) (granted : List Capability) (os : List (Option Operation))
      (o : Option Catalog)
      → invoke_catalog is_https run lower_outcome p i granted o ≡ done os
      → (c : Catalog) × (o ≡ some c)
        × (invoke_catalog is_https run lower_outcome p i granted (some c) ≡ done os)
  catalog_present p i granted os none h = cc
  catalog_present p i granted os (some c) h = (c, refl, h)

  Passed-invoke :
      (p : Program C) (i : Invocation) (granted : List Capability) (os : List (Option Operation))
      → invoke_program is_https run lower_outcome p i granted ≡ done os
      → Passed p i granted os
  unfolding invoke_program
  Passed-invoke p i granted os h =
      let outer = (require-done (not (is_kind check i)) validation_error _ os).0 h in
      let (c, present, inner) = catalog_present p i granted os p.catalog outer.1 in
      let resolving = (require-done _ validation_error _ os).0 inner in
      let storing =
        (require-done (is_nil i.state || allows granted storage_kv) validation_error _ os).0
          resolving.1 in
      let (f, routed, called) =
        callable_present p c i granted os (lookup i.route p.routes) storing.1 in
      let r = run f (invoke_budget p.limits i) i in
      let (v, returned, settling) = value_present c i granted os r r.result called in
      let (lowered, accepted, all_granted) = settled c i granted os (lower_outcome v i) settling in
      record {
        catalog = c;
        callable = f;
        value = v;
        asked = ground (arith, outer.0);
        present = present;
        resolved = (is_valid_iff (verdict_of (resolve c i))).0 resolving.0;
        stateful = storing.0;
        routed = routed;
        returned = returned;
        lowered = lowered;
        accepted = accepted;
        granted_all = all_granted;
      }

  invoke-Passed :
      (p : Program C) (i : Invocation) (granted : List Capability) (os : List (Option Operation))
      → Passed p i granted os
      → invoke_program is_https run lower_outcome p i granted ≡ done os
  unfolding invoke_program
  invoke-Passed p i granted os h =
      simp
        (
          h.asked, h.present, h.resolved, h.stateful, h.routed, h.returned, h.lowered, h.accepted,
          h.granted_all,
        )
        refl

  -- Running an invocation returns an outcome exactly if the invocation is no check, the program's
  -- catalog resolves it, its state input, if any, is granted, a callable stands at its route and
  -- returns a value that lowers to the outcome, the outcome is valid for the catalog, and every
  -- capability that its operations need is granted.
  pub invoke_program_iff :
      (p : Program C) (i : Invocation) (granted : List Capability) (os : List (Option Operation))
      → (invoke_program is_https run lower_outcome p i granted ≡ done os) ↔ Passed p i granted os
  invoke_program_iff p i granted os = (Passed-invoke p i granted os, invoke-Passed p i granted os)

  -- Every operation of an outcome that a program returns needs only capabilities that are granted, and
  -- runs in the context that it needs: a guild with an id for the key-value store, and a guild or an
  -- author for the operations on Discord and on the storage that need one.
  pub invoke_program-granted :
      (p : Program C) (i : Invocation) (granted : List Capability) (os : List (Option Operation))
      → invoke_program is_https run lower_outcome p i granted ≡ done os
      → All (λ o. All (λ k. allows granted k ≡ true) (needs o)) os × All (OperationHasContext i) os
  unfolding validate_outcome validate_outcome_itself
  invoke_program-granted p i granted os h =
      let passed = Passed-invoke p i granted os h in
      let itself = validate_outcome_itself is_https i os in
      let after = ((>>-valid _ _).0 passed.accepted).1 in
      let both = (>>-valid itself _).0 after in
      let operations =
        ((>>-valid (validate_invocation i) (validate_operations is_https i os)).0 both.0).1 in
      (
        All-of_all _ (λ o. all (allows granted) (needs o)) os
            (λ o e. All-of_all _ (allows granted) (needs o) (λ k q. q) e) passed.granted_all,
        validate_operations-HasContext is_https i os operations,
      )
