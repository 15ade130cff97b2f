-- ===== src/Contract/Catalog/Tally.antt =====
-- How many signatures of each class a list has at one route, and what the table of the routes that the
-- validation of a definition fills says of these numbers.
use go_mamacord.Base.{
  ◌≡◌, refl, sym, ap, subst, ◌∙◌, inl, inr, ◌≢◌, ℕ, ◌+◌, ◌≤◌, not, Option, none, some, List, [],
  ◌∷◌, ◌++◌, if◌then◌else◌, arith, GoString, str_eq, str_eq_iff, lookup, lookup-insert, Bool-cases,
  is_nil,
}
use go_mamacord.Contract.Verdict.{
  Verdict, valid, refuse_if, Result, ok, ◌>>>◌, >>=-eq-ok, >>>-eq-ok, for_each,
}
use go_mamacord.Contract.Definition.{
  CheckKind, guild_only, owner_only, has_permissions, custom, unknown_check, CheckDefinition,
}
use go_mamacord.Contract.Definition.Checks.{
  Owner, owned, to_autocomplete, to_check, Routes, add_route, add_route_reference, validate_checks,
  validate_check_kind,
}
use go_mamacord.Contract.Refs.{validate_permissions}
use go_mamacord.Contract.Catalog.{
  RouteType, route_autocomplete, route_check, RouteSignature, check_signatures, gather, is_custom,
}

pub record Tally : Type 0 where
  pub owners : ℕ
  pub completions : ℕ
  pub checks : ℕ

abbrev pub no_tally : Tally
no_tally = record { owners = 0; completions = 0; checks = 0 }

infixl 10 ◌⊕◌
abbrev pub ◌⊕◌ : Tally → Tally → Tally
m ⊕ n = record {
  owners = m.owners + n.owners;
  completions = m.completions + n.completions;
  checks = m.checks + n.checks;
}

Tally-ext :
    (m n : Tally)
    → m.owners ≡ n.owners
    → m.completions ≡ n.completions
    → m.checks ≡ n.checks
    → m ≡ n
Tally-ext m n a b c = cc

pub none_⊕ : (n : Tally) → no_tally ⊕ n ≡ n
none_⊕ n = Tally-ext _ _ (omega arith) (omega arith) (omega arith)

pub ⊕_none : (n : Tally) → n ⊕ no_tally ≡ n
⊕_none n = Tally-ext _ _ (omega arith) (omega arith) (omega arith)

pub ⊕_assoc : (l m n : Tally) → l ⊕ m ⊕ n ≡ l ⊕ (m ⊕ n)
⊕_assoc l m n = Tally-ext _ _ (omega arith) (omega arith) (omega arith)

pub ⊕_comm : (m n : Tally) → m ⊕ n ≡ n ⊕ m
⊕_comm m n = Tally-ext _ _ (omega arith) (omega arith) (omega arith)

abbrev pub one_of : Owner → Tally
one_of owned = record { owners = 1; completions = 0; checks = 0 }
one_of to_autocomplete = record { owners = 0; completions = 1; checks = 0 }
one_of to_check = record { owners = 0; completions = 0; checks = 1 }

abbrev pub class_of : RouteType → Owner
class_of route_autocomplete = to_autocomplete
class_of route_check = to_check
class_of _ = owned

-- What the table says of a route: it is free, has one owner, or is only referred to.
abbrev pub Fits : Option Owner → Tally → Type 0
Fits none n = (n.owners ≡ 0) × (n.completions ≡ 0) × (n.checks ≡ 0)
Fits (some owned) n = (n.owners ≡ 1) × (n.completions ≡ 0) × (n.checks ≡ 0)
Fits (some to_autocomplete) n = (n.owners ≡ 0) × (1 ≤ n.completions) × (n.checks ≡ 0)
Fits (some to_check) n = (n.owners ≡ 0) × (n.completions ≡ 0) × (1 ≤ n.checks)

module _ (r : GoString) where
  -- One signature of the class at the route, counted at `r`.
  abbrev pub at : Owner → GoString → Tally
  at class route = if str_eq route r then one_of class else no_tally

  unfoldable pub tally : List RouteSignature → Tally
  tally [] = no_tally
  tally (s ∷ ss) = at (class_of s.type) s.route ⊕ tally ss

  pub tally-append : (xs ys : List RouteSignature) → tally (xs ++ ys) ≡ tally xs ⊕ tally ys
  unfolding tally
  tally-append [] ys = sym (none_⊕ (tally ys))
  tally-append (x ∷ xs) ys =
      rw (tally-append xs ys) (sym (⊕_assoc (at (class_of x.type) x.route) (tally xs) (tally ys)))

  pub ⊕-append :
      (n : Tally) (xs ys : List RouteSignature) → n ⊕ tally xs ⊕ tally ys ≡ n ⊕ tally (xs ++ ys)
  ⊕-append n xs ys = ⊕_assoc n (tally xs) (tally ys) ∙ ap (λ m. n ⊕ m) (sym (tally-append xs ys))

  pub add_route-Fits :
      (route : GoString) (t u : Routes) (n : Tally)
      → add_route route t ≡ ok u
      → Fits (lookup r t) n
      → Fits (lookup r u) (n ⊕ at owned route)
  unfolding add_route
  add_route-Fits route t u n h f = ground (arith, lookup-insert route r owned t, str_eq_iff route r)

  pub add_reference-Fits :
      (class : Owner) (route : GoString) (t u : Routes) (n : Tally)
      → class ≢ owned
      → add_route_reference class route t ≡ ok u
      → Fits (lookup r t) n
      → Fits (lookup r u) (n ⊕ at class route)
  unfolding add_route_reference
  add_reference-Fits owned route t u n k h f = absurd (k refl)
  add_reference-Fits to_autocomplete route t u n k h f =
      ground (arith, lookup-insert route r to_autocomplete t, str_eq_iff route r)
  add_reference-Fits to_check route t u n k h f =
      ground (arith, lookup-insert route r to_check t, str_eq_iff route r)

  -- A step that counts a list of signatures keeps the table in line with the tally.
  abbrev pub Counts {ℓ} :
      {A : Type ℓ} → (A → Routes → Result Routes) → (A → List RouteSignature) → Type ℓ
  Counts {A = A} step made =
      (a : A) (t u : Routes) (n : Tally)
      → step a t ≡ ok u
      → Fits (lookup r t) n
      → Fits (lookup r u) (n ⊕ tally (made a))

  -- Tests that change nothing.
  pub quiet-Fits :
      (v : Verdict) (t u : Routes) (n : Tally)
      → (v >>> ok t) ≡ ok u
      → Fits (lookup r t) n
      → Fits (lookup r u) (n ⊕ no_tally)
  quiet-Fits v t u n h f =
      rw (⊕_none n) (
        let same : t ≡ u = cc ((>>>-eq-ok v (ok t) h).1) in subst (λ w. Fits (lookup r w) n) same f)

  abbrev pub check_tally : CheckKind → GoString → Tally
  check_tally k route = if is_custom k then at to_check route else no_tally

  tally-check_signatures :
      (c : CheckDefinition) (cs : List CheckDefinition)
      → tally (check_signatures (c ∷ cs)) ≡ check_tally c.kind c.route ⊕ tally (check_signatures cs)
  unfolding tally check_signatures
  tally-check_signatures c cs = elim (Bool-cases (is_custom c.kind)) [
    | inl y ↦ rw y refl
    | inr n ↦ rw n (sym (none_⊕ (tally (check_signatures cs))))
  ]

  check-Fits :
      (k : CheckKind) (c : CheckDefinition) (t u : Routes) (n : Tally)
      → validate_check_kind k c t ≡ ok u
      → Fits (lookup r t) n
      → Fits (lookup r u) (n ⊕ check_tally k c.route)
  check-Fits custom c t u n h f = add_reference-Fits to_check c.route t u n (λ e. cc) h f
  check-Fits guild_only c t u n h f = quiet-Fits _ t u n h f
  check-Fits owner_only c t u n h f = quiet-Fits _ t u n h f
  check-Fits has_permissions c t u n h f =
      let listed = refuse_if (is_nil c.permissions) "permission check needs permissions" in
      let free = refuse_if (not (is_nil c.route)) "permission check cannot have a route" in
      let known = validate_permissions [] c.permissions in
      let after = (>>>-eq-ok listed (free >>> known >>> ok t) h).1 in
      quiet-Fits known t u n (>>>-eq-ok free (known >>> ok t) after).1 f
  check-Fits unknown_check c t u n h f = cc

  pub checks-Fits : Counts validate_checks check_signatures
  unfolding validate_checks tally check_signatures
  checks-Fits [] t u n h f = quiet-Fits valid t u n h f
  checks-Fits (c ∷ cs) t u n h f =
      let (v, first, rest) = >>=-eq-ok (validate_check_kind c.kind c t) _ h in
      subst (Fits (lookup r u))
        (⊕_assoc n (check_tally c.kind c.route) (tally (check_signatures cs))
          ∙ ap (λ m. n ⊕ m) (sym (tally-check_signatures c cs)))
        (checks-Fits cs v u (n ⊕ check_tally c.kind c.route) rest
          (check-Fits c.kind c t v n first f))

  -- A step that changes nothing and counts nothing.
  pub unchanged {κ} :
      {S : Type κ} (table : S → Routes) (t u : S) (n : Tally)
      → ok t ≡ ok u
      → Fits (lookup r (table t)) n
      → Fits (lookup r (table u)) (n ⊕ no_tally)
  unchanged table t u n e f =
      let same : t ≡ u = cc e in
      subst (λ w. Fits (lookup r (table w)) (n ⊕ no_tally)) same
        (subst (Fits (lookup r (table t))) (sym (⊕_none n)) f)

  -- A step on the whole table, repeated over a list.
  pub for_each-Fits {ℓ κ} :
      {A : Type ℓ} {S : Type κ} (table : S → Routes) (step : A → S → Result S)
      (made : A → List RouteSignature)
      → ((a : A) (t u : S) (n : Tally)
          → step a t ≡ ok u
          → Fits (lookup r (table t)) n
          → Fits (lookup r (table u)) (n ⊕ tally (made a)))
      → (items : List A) (t u : S) (n : Tally) → for_each step items t ≡ ok u
      → Fits (lookup r (table t)) n
      → Fits (lookup r (table u)) (n ⊕ tally (gather made items))
  unfolding for_each gather tally
  for_each-Fits table step made keep [] t u n h f = unchanged table t u n h f
  for_each-Fits table step made keep (x ∷ xs) t u n h f =
      let (v, first, rest) = >>=-eq-ok (step x t) (for_each step xs) h in
      subst (Fits (lookup r (table u))) (⊕-append n (made x) (gather made xs))
        (for_each-Fits table step made keep xs v u (n ⊕ tally (made x)) rest (keep x t v n first f))
