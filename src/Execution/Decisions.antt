-- ===== src/Execution/Decisions.antt =====
-- When a check of a program returns a decision: `checkProgram` of generation/execution.go.
use go_mamacord.Base.{◌≡◌, refl, subst, ◌↔◌, Bool, true, Option, none, some, GoString, lookup}
use go_mamacord.Contract.Verdict.{valid, Result, ok, error, verdict_of}
use go_mamacord.Contract.Inputs.{Invocation, check, is_kind}
use go_mamacord.Contract.Catalog.{Catalog, RouteSignature, is_check}
use go_mamacord.Contract.Catalog.Match.{resolve}
use go_mamacord.Contract.Catalog.Outcome.{CheckDecision, validate_check_decision}
use go_mamacord.Contract.Catalog.Replies.{Replies, check_decision_iff}
use go_mamacord.Execution.{
  validation_error, invalid_result, Run, done, is_valid, Program, Budget, check_budget,
  settle_decision, check_result, check_callable, check_catalog, check_program,
}
use go_mamacord.Execution.Laws.{is_valid_iff, require-done}

module _ {ℓ κ} {C : Type ℓ} {V : Type κ} (is_https : GoString → Bool)
    (run : C → Budget → Invocation → Run V) (lower_decision : V → Result CheckDecision) where
  -- What stands between the invocation of a check and its decision.
  pub record Decided (p : Program C) (i : Invocation) (d : CheckDecision) : Type (ℓ ⊔ κ) where
    pub catalog : Catalog
    pub signature : RouteSignature
    pub callable : C
    pub value : V
    pub asked : is_kind check i ≡ true
    pub present : p.catalog ≡ some catalog
    pub resolved : resolve catalog i ≡ ok signature
    pub on_check : is_check signature.type ≡ true
    pub routed : lookup i.route p.routes ≡ some callable
    pub returned : (run callable (check_budget p.limits) i).result ≡ some value
    pub lowered : lower_decision value ≡ ok d
    pub replies : Replies is_https catalog d.kind d.denial

  settled :
      (c : Catalog) (i : Invocation) (d : CheckDecision) (m : Result CheckDecision)
      → settle_decision is_https run lower_decision c i m ≡ done d
      → (m ≡ ok d) × (validate_check_decision is_https c i d ≡ valid)
  settled c i d (error e) h = cc
  settled c i d (ok made) h =
      let (accepted, end) =
        (require-done (is_valid (validate_check_decision is_https c i made)) invalid_result
            (done made) d).0
          h in
      let same : made ≡ d = cc end in
      subst (λ x. (ok made ≡ ok x) × (validate_check_decision is_https c i x ≡ valid)) same
        (refl, (is_valid_iff (validate_check_decision is_https c i made)).0 accepted)

  value_present :
      (c : Catalog) (i : Invocation) (d : CheckDecision) (r : Run V) (o : Option V)
      → check_result is_https run lower_decision c i r o ≡ done d
      → (v : V) × (o ≡ some v)
        × (lower_decision v ≡ ok d)
        × (validate_check_decision is_https c i d ≡ valid)
  value_present c i d r none h = cc
  value_present c i d r (some v) h =
      let (lowered, accepted) = settled c i d (lower_decision v) h in (v, refl, lowered, accepted)

  callable_present :
      (p : Program C) (c : Catalog) (i : Invocation) (d : CheckDecision) (o : Option C)
      → check_callable is_https run lower_decision p.limits c i o ≡ done d
      → (f : C) × (o ≡ some f)
        × (check_result is_https run lower_decision c i
              (run f (check_budget p.limits) i)
              (run f (check_budget p.limits) i).result
            ≡ done d)
  callable_present p c i d none h = cc
  callable_present p c i d (some f) h = (f, refl, h)

  catalog_present :
      (p : Program C) (i : Invocation) (d : CheckDecision) (o : Option Catalog)
      → check_catalog is_https run lower_decision p i o ≡ done d
      → (c : Catalog) × (o ≡ some c)
        × (check_callable is_https run lower_decision p.limits c i (lookup i.route p.routes)
            ≡ done d)
  catalog_present p i d none h = cc
  catalog_present p i d (some c) h =
      (c, refl, ((require-done (is_valid (verdict_of (resolve c i))) validation_error _ d).0 h).1)

  Decided-check :
      (p : Program C) (i : Invocation) (d : CheckDecision)
      → check_program is_https run lower_decision p i ≡ done d
      → Decided p i d
  unfolding check_program
  Decided-check p i d h =
      let (asked, inner) = (require-done (is_kind check i) validation_error _ d).0 h in
      let (c, present, called) = catalog_present p i d p.catalog inner in
      let (f, routed, answered) = callable_present p c i d (lookup i.route p.routes) called in
      let r = run f (check_budget p.limits) i in
      let (v, returned, lowered, accepted) = value_present c i d r r.result answered in
      let (s, resolved, on_check, replies) = (check_decision_iff is_https c i d).0 accepted in
      record {
        catalog = c;
        signature = s;
        callable = f;
        value = v;
        asked = asked;
        present = present;
        resolved = resolved;
        on_check = on_check;
        routed = routed;
        returned = returned;
        lowered = lowered;
        replies = replies;
      }

  check-Decided :
      (p : Program C) (i : Invocation) (d : CheckDecision)
      → Decided p i d
      → check_program is_https run lower_decision p i ≡ done d
  unfolding check_program
  check-Decided p i d h =
      let accepted =
        (check_decision_iff is_https h.catalog i d).1
          (h.signature, h.resolved, h.on_check, h.replies) in
      simp (h.asked, h.present, h.resolved, h.routed, h.returned, h.lowered, accepted) refl

  -- Running a check returns a decision exactly if the invocation is of a check, the program's catalog
  -- resolves it to a check's signature, a callable stands at its route and returns, with the budget of
  -- checks, a value that lowers to the decision, and the reply fits the decision: none if it allows or
  -- denies silently, and for a denial with a message one that is ephemeral, valid, and names only
  -- handlers that the catalog declares.
  pub check_program_iff :
      (p : Program C) (i : Invocation) (d : CheckDecision)
      → (check_program is_https run lower_decision p i ≡ done d) ↔ Decided p i d
  check_program_iff p i d = (Decided-check p i d, check-Decided p i d)
