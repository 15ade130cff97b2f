-- ===== src/Contract/Catalog/Candidates.antt =====
-- The candidates of one route in a catalog, as signatures are added to it.
use go_mamacord.Base.{
  ◌≡◌, refl, sym, ap, subst, ◌∙◌, inl, inr, ◌+◌, ◌≤◌, Bool, true, false, not, ◌&&◌, Option, none,
  some, List, [], ◌∷◌, ◌++◌, if◌then◌else◌, arith, length, length-append, any, all, In, here, there,
  any-append_one, all-append_one, In-append_last, In-append_left, GoString, str_eq, str_eq_iff,
  lookup, insert, lookup-insert, Bool-cases, and-true, ◌==◌,
}
use go_mamacord.Contract.Definition.Checks.{Owner, owned, to_autocomplete, to_check}
use go_mamacord.Contract.Catalog.{
  RouteType, route_autocomplete, route_check, RouteSignature, Catalog, candidates, is_check, add,
  add_all,
}
use go_mamacord.Contract.Catalog.Tally.{
  Tally, no_tally, ◌⊕◌, ⊕_none, ⊕_assoc, class_of, one_of, at, tally,
}

abbrev pub is_autocomplete : RouteType → Bool
is_autocomplete route_autocomplete = true
is_autocomplete _ = false

abbrev has_check : List RouteSignature → Bool
has_check = any (λ e. is_check e.type)

-- The candidates of a route after one more signature was added at it.
abbrev joined : List RouteSignature → RouteSignature → List RouteSignature
joined ss s = if is_check s.type && has_check ss then ss else ss ++ (s ∷ [])

abbrev check_class : Owner → Bool
check_class to_check = true
check_class _ = false

abbrev completion_class : Owner → Bool
completion_class to_autocomplete = true
completion_class _ = false

is_check-class : (t : RouteType) → is_check t ≡ check_class (class_of t)
is_check-class route_check = refl
is_check-class route_autocomplete = refl
is_check-class _ = refl

is_autocomplete-class : (t : RouteType) → is_autocomplete t ≡ completion_class (class_of t)
is_autocomplete-class route_check = refl
is_autocomplete-class route_autocomplete = refl
is_autocomplete-class _ = refl

check-class_of : (t : RouteType) → is_check t ≡ true → class_of t ≡ to_check
check-class_of route_check h = refl
check-class_of _ h = cc

pub found_if :
    (b : Bool) (ss : List RouteSignature) (o : Option (List RouteSignature))
    → (elim (if b then some ss else o) [ none ↦ [] | some x ↦ x ])
      ≡ (if b then ss else (elim o [ none ↦ [] | some x ↦ x ]))
found_if true ss o = refl
found_if false ss o = refl

candidates-insert :
    (k r : GoString) (ss : List RouteSignature) (c : Catalog)
    → candidates r (insert k ss c) ≡ (if str_eq k r then ss else candidates r c)
candidates-insert k r ss c =
    ap (λ (o : Option (List RouteSignature)). elim o [ none ↦ [] | some x ↦ x ])
      (lookup-insert k r ss c)
    ∙ found_if (str_eq k r) ss (lookup r c)

module _ (r : GoString) where
  candidates-add :
      (s : RouteSignature) (c : Catalog)
      → candidates r (add s c)
        ≡ (if str_eq s.route r then joined (candidates r c) s else candidates r c)
  unfolding add
  candidates-add s c = ground (
    arith,
    candidates-insert s.route r (candidates s.route c ++ (s ∷ [])) c,
    str_eq_iff s.route r,
  )

  -- What the candidates of the route are, by the tally of what was added.
  pub record Kept (n : Tally) (ss : List RouteSignature) : Type 0 where
    pub size : length ss ≡ n.owners + n.completions + (if n.checks == 0 then 0 else 1)
    pub checked : has_check ss ≡ not (n.checks == 0)
    pub completing : n.owners ≡ 0 → n.checks ≡ 0 → all (λ s. is_autocomplete s.type) ss ≡ true

  -- One signature more.
  Kept-append :
      (s : RouteSignature) (n : Tally) (ss : List RouteSignature) (class : Owner)
      → is_check s.type && has_check ss ≡ false
      → class_of s.type ≡ class
      → Kept n ss
      → Kept (n ⊕ one_of class) (ss ++ (s ∷ []))
  Kept-append s n ss owned f e k =
      let quiet : is_check s.type ≡ false = is_check-class s.type ∙ ap check_class e in
      let own : is_autocomplete s.type ≡ false =
        is_autocomplete-class s.type ∙ ap completion_class e in
      record {
        size = ground (arith, k.size, length-append ss (s ∷ []));
        checked = ground (arith, k.checked, any-append_one (λ x. is_check x.type) ss s);
        completing = λ h g. absurd (omega arith);
      }
  Kept-append s n ss to_autocomplete f e k =
      let quiet : is_check s.type ≡ false = is_check-class s.type ∙ ap check_class e in
      let own : is_autocomplete s.type ≡ true =
        is_autocomplete-class s.type ∙ ap completion_class e in
      record {
        size = ground (arith, k.size, length-append ss (s ∷ []));
        checked = ground (arith, k.checked, any-append_one (λ x. is_check x.type) ss s);
        completing =
            λ h g. ground (arith, k.completing, all-append_one (λ x. is_autocomplete x.type) ss s);
      }
  Kept-append s n ss to_check f e k =
      let quiet : is_check s.type ≡ true = is_check-class s.type ∙ ap check_class e in
      record {
        size = ground (arith, k.size, k.checked, length-append ss (s ∷ []));
        checked = ground (arith, k.checked, any-append_one (λ x. is_check x.type) ss s);
        completing = λ h g. absurd (omega arith);
      }

  -- A second check signature is not added.
  Kept-same :
      (s : RouteSignature) (n : Tally) (ss : List RouteSignature)
      → is_check s.type && has_check ss ≡ true
      → Kept n ss
      → Kept (n ⊕ one_of (class_of s.type)) ss
  Kept-same s n ss f k =
      let both = and-true (is_check s.type) (has_check ss) f in
      let class : class_of s.type ≡ to_check = check-class_of s.type both.0 in
      subst (λ c. Kept (n ⊕ one_of c) ss) (sym class)
        (record {
          size = ground (arith, k.size, k.checked);
          checked = ground (arith, k.checked);
          completing = λ h g. absurd (omega arith);
        })

  Kept-add :
      (s : RouteSignature) (n : Tally) (c : Catalog)
      → Kept n (candidates r c)
      → Kept (n ⊕ at r (class_of s.type) s.route) (candidates r (add s c))
  Kept-add s n c k =
      let old = candidates r c in
      let goal = λ (b : Bool).
        Kept (n ⊕ (if b then one_of (class_of s.type) else no_tally))
          (if b then joined old s else old) in
      let met : goal (str_eq s.route r) = elim (Bool-cases (str_eq s.route r)) [
        | inr y ↦ subst goal (sym y) (subst (λ m. Kept m old) (sym (⊕_none n)) k)
        | inl y ↦ subst goal (sym y) (elim (Bool-cases (is_check s.type && has_check old)) [
          | inl f ↦
              subst (λ b. Kept (n ⊕ one_of (class_of s.type)) (if b then old else old ++ (s ∷ [])))
                (sym f) (Kept-same s n old f k)
          | inr f ↦
              subst (λ b. Kept (n ⊕ one_of (class_of s.type)) (if b then old else old ++ (s ∷ [])))
                (sym f) (Kept-append s n old (class_of s.type) f refl k)
        ])
      ] in
      subst (Kept (n ⊕ at r (class_of s.type) s.route)) (sym (candidates-add s c)) met

  pub Kept-add_all :
      (ss : List RouteSignature) (n : Tally) (c : Catalog)
      → Kept n (candidates r c)
      → Kept (n ⊕ tally r ss) (candidates r (add_all ss c))
  unfolding add_all tally
  Kept-add_all [] n c k = subst (λ m. Kept m (candidates r c)) (sym (⊕_none n)) k
  Kept-add_all (s ∷ ss) n c k =
      let one = at r (class_of s.type) s.route in
      subst (λ m. Kept m (candidates r (add_all ss (add s c)))) (⊕_assoc n one (tally r ss))
        (Kept-add_all ss (n ⊕ one) (add s c) (Kept-add s n c k))

  -- Adding loses no signature.
  In-add :
      (x s : RouteSignature) (c : Catalog) → In x (candidates r c) → In x (candidates r (add s c))
  In-add x s c i = subst (In x) (sym (candidates-add s c)) (
      let old = candidates r c in
      elim (Bool-cases (str_eq s.route r)) [
        | inr y ↦ subst (λ b. In x (if b then joined old s else old)) (sym y) i
        | inl y ↦
            subst (λ b. In x (if b then joined old s else old)) (sym y)
              (elim (Bool-cases (is_check s.type && has_check old)) [
                | inl f ↦ subst (λ b. In x (if b then old else old ++ (s ∷ []))) (sym f) i
                | inr f ↦
                    subst (λ b. In x (if b then old else old ++ (s ∷ []))) (sym f)
                      (In-append_left x old (s ∷ []) i)
              ])
      ])

  In-add_all :
      (x : RouteSignature) (ss : List RouteSignature) (c : Catalog)
      → In x (candidates r c)
      → In x (candidates r (add_all ss c))
  unfolding add_all
  In-add_all x [] c i = i
  In-add_all x (s ∷ ss) c i = In-add_all x ss (add s c) (In-add x s c i)

  -- A signature that is no check's is added.
  added :
      (s : RouteSignature) (c : Catalog)
      → s.route ≡ r
      → is_check s.type ≡ false
      → In s (candidates r (add s c))
  added s c e f =
      let old = candidates r c in
      let quiet : (is_check s.type && has_check old) ≡ false = ap (λ b. b && has_check old) f in
      subst (In s) (sym (candidates-add s c)) (
        subst (λ b. In s (if b then joined old s else old)) (sym ((str_eq_iff s.route r).1 e))
          (subst (λ b. In s (if b then old else old ++ (s ∷ []))) (sym quiet)
            (In-append_last old s)))

  pub In-candidates :
      (s : RouteSignature) (ss : List RouteSignature) (c : Catalog)
      → In s ss
      → s.route ≡ r
      → class_of s.type ≡ owned
      → In s (candidates r (add_all ss c))
  unfolding add_all
  In-candidates s [] c i e o = elim i [ ]
  In-candidates s (x ∷ ss) c (here q) e o =
      let quiet : is_check s.type ≡ false = is_check-class s.type ∙ ap check_class o in
      In-add_all s ss (add x c) (subst (λ y. In s (candidates r (add y c))) q (added s c e quiet))
  In-candidates s (x ∷ ss) c (there i) e o = In-candidates s ss (add x c) i e o

  pub owner-counted :
      (s : RouteSignature) (ss : List RouteSignature)
      → In s ss
      → s.route ≡ r
      → class_of s.type ≡ owned
      → 1 ≤ (tally r ss).owners
  unfolding tally
  owner-counted s [] i e o = elim i [ ]
  owner-counted s (x ∷ ss) (here q) e o = ground (arith, str_eq_iff s.route r)
  owner-counted s (x ∷ ss) (there i) e o = omega (arith, owner-counted s ss i e o)
