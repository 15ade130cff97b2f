-- ===== src/Contract/Catalog/Clicks.antt =====
-- What happens when a user answers a component of an accepted outcome.
use go_mamacord.Base.{
  ◌≡◌, refl, subst, ◌⊎◌, inl, inr, ◌↔◌, ℕ, Bool, true, ◌&&◌, Option, some, List, [], ◌∷◌, ◌++◌,
  if◌then◌else◌, arith, any, All-In, In, here, there, In-append, In-append_left, In-append_right,
  any-true, GoString, str_eq, str_eq_iff, lookup, insert, Bool-cases,
}
use go_mamacord.Contract.Verdict.{valid, ok}
use go_mamacord.Contract.Inputs.{OptionValue, Invocation, component}
use go_mamacord.Contract.Invocation.Validate.{validate_invocation}
use go_mamacord.Contract.Operation.{Operation}
use go_mamacord.Contract.Definition.{Definition}
use go_mamacord.Contract.Definition.Checks.{owned}
use go_mamacord.Contract.Catalog.{
  RouteType, route_component, RouteSignature, Catalog, candidates, is_check, add, add_all,
  signatures_of, compile,
}
use go_mamacord.Contract.Catalog.Match.{supports, expected_state, matches, resolve}
use go_mamacord.Contract.Catalog.Outcome.{
  all_signatures, is_component, declares, component_supports, validate_outcome,
}
use go_mamacord.Contract.Catalog.Tally.{class_of}
use go_mamacord.Contract.Catalog.Candidates.{found_if}
use go_mamacord.Contract.Catalog.Unambiguous.{compile-made, resolve-declared}
use go_mamacord.Contract.Catalog.Declared.{Handler, outcome_handlers, Supported, outcome-Supported}

all_signatures-insert :
    (x : RouteSignature) (r : GoString) (ss : List RouteSignature) (c : Catalog)
    → In x (all_signatures (insert r ss c))
    → In x ss ⊎ In x (all_signatures c)
unfolding all_signatures insert
all_signatures-insert x r ss [] i = In-append x ss [] i
all_signatures-insert x r ss ((q, held) ∷ c) i =
    let on =
      λ (b : Bool). In x (all_signatures (if b then (r, ss) ∷ c else (q, held) ∷ insert r ss c)) in
    elim (Bool-cases (str_eq q r)) [
      | inl y ↦ elim (In-append x ss (all_signatures c) (subst on y i)) [
        | inl j ↦ inl j
        | inr j ↦ inr (In-append_right x held (all_signatures c) j)
      ]
      | inr y ↦ elim (In-append x held (all_signatures (insert r ss c)) (subst on y i)) [
        | inl j ↦ inr (In-append_left x held (all_signatures c) j)
        | inr j ↦ elim (all_signatures-insert x r ss c j) [
          | inl k ↦ inl k
          | inr k ↦ inr (In-append_right x held (all_signatures c) k)
        ]
      ]
    ]

In-candidates_all :
    (x : RouteSignature) (r : GoString) (c : Catalog)
    → In x (candidates r c)
    → In x (all_signatures c)
unfolding all_signatures
In-candidates_all x r [] i = elim i [ ]
In-candidates_all x r ((q, held) ∷ c) i =
    let found = subst (In x) (found_if (str_eq q r) held (lookup r c)) i in
    elim (Bool-cases (str_eq q r)) [
      | inl y ↦
          In-append_left x held (all_signatures c)
            (subst (λ b. In x (if b then held else candidates r c)) y found)
      | inr y ↦
          In-append_right x held (all_signatures c) (
            In-candidates_all x r c
              (subst (λ b. In x (if b then held else candidates r c)) y found))
    ]

In-add_inv :
    (x s : RouteSignature) (c : Catalog)
    → In x (all_signatures (add s c))
    → (x ≡ s) ⊎ In x (all_signatures c)
unfolding add
In-add_inv x s c i =
    let old = candidates s.route c in
    let skip = is_check s.type && any (λ e. is_check e.type) old in
    let on =
      λ (b : Bool). In x (all_signatures (if b then c else insert s.route (old ++ (s ∷ [])) c)) in
    elim (Bool-cases skip) [
      | inl y ↦ inr (subst on y i)
      | inr y ↦ elim (all_signatures-insert x s.route (old ++ (s ∷ [])) c (subst on y i)) [
        | inr k ↦ inr k
        | inl j ↦ elim (In-append x old (s ∷ []) j) [
          | inl k ↦ inr (In-candidates_all x s.route c k)
          | inr k ↦ inl (the_only k)
        ]
      ]
    ]
  where
    the_only : {y : RouteSignature} → In y (s ∷ []) → y ≡ s
    the_only (here e) = e
    the_only (there k) = elim k [ ]

In-add_all_inv :
    (x : RouteSignature) (ss : List RouteSignature) (c : Catalog)
    → In x (all_signatures (add_all ss c))
    → In x ss ⊎ In x (all_signatures c)
unfolding add_all
In-add_all_inv x [] c i = inr i
In-add_all_inv x (s ∷ ss) c i = elim (In-add_all_inv x ss (add s c) i) [
  | inl j ↦ inl (there j)
  | inr j ↦ elim (In-add_inv x s c j) [ inl e ↦ inl (here e) | inr k ↦ inr k ]
]

-- The invocation by which a user answers a component: `base` with the route and the state that the
-- signature asks for, and the handler's input.
abbrev pub click : Invocation → RouteSignature → Handler → List OptionValue → Invocation
click base s h vs = record base {
  route = s.route;
  kind = component;
  response_state = expected_state s.defer;
  component = some (record { id = h.0; kind = h.1; values = vs });
}

matches-click :
    (base : Invocation) (s : RouteSignature) (h : Handler) (vs : List OptionValue)
    → declares h.0 h.1 s ≡ true
    → matches s (click base s h vs) ≡ valid
unfolding matches
matches-click base s h vs e =
    ground (arith, str_eq_iff h.0 s.component_id, str_eq_iff s.component_id h.0)

component-owned : (t : RouteType) → is_component t ≡ true → class_of t ≡ owned
component-owned route_component e = refl
component-owned _ e = cc

declared-owned :
    (s : RouteSignature) (h : Handler) → declares h.0 h.1 s ≡ true → class_of s.type ≡ owned
declared-owned s h e =
    let rest = str_eq s.component_id h.0 && supports s.component_kinds h.1 in
    component-owned s.type (ground (arith))

module _ (lower : ℕ → ℕ) (is_https : GoString → Bool) (d : Definition) (c : Catalog) where
  -- If an outcome is accepted for a compiled catalog, then each handler that a button or a select of
  -- the outcome names, also one inside a best-effort or guarded operation, is a component of the
  -- definition with that id and kind, and a user's answer to it resolves to that component exactly if
  -- the answer is a valid invocation.
  pub outcome_handlers-resolve :
      (i : Invocation) (os : List (Option Operation)) (h : Handler) (base : Invocation)
      (vs : List OptionValue)
      → compile lower d ≡ ok c
      → validate_outcome is_https c i os ≡ valid
      → In h (outcome_handlers os)
      → (s : RouteSignature) × In s (signatures_of d)
        × (declares h.0 h.1 s ≡ true)
        × ((resolve c (click base s h vs) ≡ ok s)
            ↔ (validate_invocation (click base s h vs) ≡ valid))
  unfolding component_supports
  outcome_handlers-resolve i os h base vs compiled accepted named =
      let known : component_supports c h.0 h.1 ≡ true =
        All-In (Supported c) h (outcome_handlers os) (outcome-Supported c is_https i os accepted)
          named in
      let (s, held, declared) = any-true (declares h.0 h.1) (all_signatures c) known in
      let made = subst (λ x. In s (all_signatures x)) (compile-made lower d c compiled) held in
      let mine = in_definition s made in
      let class = declared-owned s h declared in
      let answered = resolve-declared lower d c s (click base s h vs) compiled mine class refl in
      (
        s,
        mine,
        declared,
        (λ r. (answered.0 r).0, λ v. answered.1 (v, matches-click base s h vs declared)),
      )
    where
      in_definition :
          (s : RouteSignature)
          → In s (all_signatures (add_all (signatures_of d) []))
          → In s (signatures_of d)
      in_definition s j = elim (In-add_all_inv s (signatures_of d) [] j) [
        | inl k ↦ k
        | inr k ↦ elim k [ ]
      ]
