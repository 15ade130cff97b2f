-- ===== src/Contract/Catalog/Unambiguous.antt =====
-- Compiled catalogs have one signature for each route, but for the completions that share one.
use go_mamacord.Base.{
  ◌≡◌, refl, sym, ap, subst, ◌∙◌, ◌⊎◌, inl, inr, ◌↔◌, ℕ, ◌≤◌, true, false, Option, none, some, List,
  [], ◌∷◌, arith, length, all, is_nil, In, here, there, GoString, lookup,
}
use go_mamacord.Contract.Verdict.{
  Verdict, valid, invalid, refuse_if, ok, error, ◌>>>◌, >>>-eq-ok, verdict_of-valid,
}
use go_mamacord.Contract.Inputs.{Invocation}
use go_mamacord.Contract.Invocation.Validate.{validate_invocation}
use go_mamacord.Contract.Definition.{Definition}
use go_mamacord.Contract.Definition.Checks.{Owner, owned, to_autocomplete, to_check}
use go_mamacord.Contract.Definition.Validate.{
  Tables, routes_of, enter_definition, validate_definition,
}
use go_mamacord.Contract.Catalog.{
  RouteSignature, Catalog, candidates, add_all, signatures_of, compile,
}
use go_mamacord.Contract.Catalog.Match.{matches, select_match, resolve}
use go_mamacord.Contract.Catalog.Tally.{Tally, no_tally, none_⊕, class_of, Fits, tally}
use go_mamacord.Contract.Catalog.Compiled.{definition-Fits}
use go_mamacord.Contract.Catalog.Candidates.{
  Kept, Kept-add_all, is_autocomplete, In-candidates, owner-counted,
}

only_one {ℓ} : {A : Type ℓ} (xs : List A) (a : A) → length xs ≡ 1 → In a xs → xs ≡ a ∷ []
only_one [] a h i = cc
only_one (x ∷ []) a h (here e) = cc
only_one (x ∷ []) a h (there i) = elim i [ ]
only_one (x ∷ y ∷ xs) a h i = absurd (omega arith)

one_owner :
    (o : Option Owner) (n : Tally)
    → Fits o n
    → 1 ≤ n.owners
    → (n.owners ≡ 1) × (n.completions ≡ 0) × (n.checks ≡ 0)
one_owner (some owned) n f h = f
one_owner none n f h = absurd (omega arith)
one_owner (some to_check) n f h = absurd (omega arith)
one_owner (some to_autocomplete) n f h = absurd (omega arith)

one_candidate :
    (s : RouteSignature) (v w : Verdict)
    → ((v >>> (elim w [ invalid e ↦ error "route signature mismatch" | valid ↦ ok s ])) ≡ ok s)
      ↔ ((v ≡ valid) × (w ≡ valid))
one_candidate s valid valid = (λ h. (refl, refl), λ h. refl)
one_candidate s valid (invalid e) = (λ h. cc, λ h. cc h.1)
one_candidate s (invalid e) w = (λ h. cc, λ h. cc h.0)

module _ (lower : ℕ → ℕ) (d : Definition) (c : Catalog) where
  compile-Fits :
      compile lower d ≡ ok c
      → (r : GoString) → (u : Tables) × Fits (lookup r (routes_of u)) (tally r (signatures_of d))
  unfolding compile validate_definition
  compile-Fits h r =
      let accepted = (>>>-eq-ok (validate_definition lower d) _ h).0 in
      let (u, e) = verdict_of-valid (enter_definition lower d) accepted in
      (u, definition-Fits r lower d u e)

  pub compile-made : compile lower d ≡ ok c → c ≡ add_all (signatures_of d) []
  unfolding compile
  compile-made h =
      let made : ok (add_all (signatures_of d) []) ≡ ok c =
        (>>>-eq-ok (validate_definition lower d) _ h).1 in
      cc made

  compile-Kept :
      compile lower d ≡ ok c → (r : GoString) → Kept r (tally r (signatures_of d)) (candidates r c)
  compile-Kept h r =
      let start : Kept r no_tally [] = record {
        size = refl;
        checked = refl;
        completing = λ a b. refl;
      } in
      subst (λ x. Kept r (tally r (signatures_of d)) (candidates r x)) (sym (compile-made h))
        (subst (λ m. Kept r m (candidates r (add_all (signatures_of d) [])))
          (none_⊕ (tally r (signatures_of d))) (Kept-add_all r (signatures_of d) no_tally [] start))

  -- If a definition compiles, every route of its catalog has at most one signature, or all its
  -- signatures are completions of options.
  pub compile_unambiguous :
      compile lower d ≡ ok c
      → (r : GoString)
      → (length (candidates r c) ≤ 1) ⊎ (all (λ s. is_autocomplete s.type) (candidates r c) ≡ true)
  compile_unambiguous h r =
      let (u, fits) = compile-Fits h r in
      by_use (lookup r (routes_of u)) (tally r (signatures_of d)) (candidates r c) fits
        (compile-Kept h r)
    where
      by_use :
          (o : Option Owner) (n : Tally) (ss : List RouteSignature)
          → Fits o n
          → Kept r n ss
          → (length ss ≤ 1) ⊎ (all (λ s. is_autocomplete s.type) ss ≡ true)
      by_use none n ss f k = inl (ground (arith, k.size))
      by_use (some owned) n ss f k = inl (ground (arith, k.size))
      by_use (some to_check) n ss f k = inl (ground (arith, k.size))
      by_use (some to_autocomplete) n ss f k = inr (k.completing f.0 f.2)

  candidates-declared :
      (s : RouteSignature)
      → compile lower d ≡ ok c
      → In s (signatures_of d)
      → class_of s.type ≡ owned
      → candidates s.route c ≡ s ∷ []
  candidates-declared s h i o =
      let (u, fits) = compile-Fits h s.route in
      let counted = owner-counted s.route s (signatures_of d) i refl o in
      let alone =
        one_owner (lookup s.route (routes_of u)) (tally s.route (signatures_of d)) fits counted in
      let held : In s (candidates s.route c) =
        subst (λ x. In s (candidates s.route x)) (sym (compile-made h))
          (In-candidates s.route s (signatures_of d) [] i refl o) in
      only_one (candidates s.route c) s (ground (arith, alone, (compile-Kept h s.route).size)) held

  -- If a definition compiles, an invocation of the route of one of its commands, components, modals,
  -- listeners or tasks resolves to that signature exactly if the invocation is valid and matches it.
  pub resolve-declared :
      (s : RouteSignature) (i : Invocation)
      → compile lower d ≡ ok c
      → In s (signatures_of d)
      → class_of s.type ≡ owned
      → i.route ≡ s.route
      → (resolve c i ≡ ok s) ↔ ((validate_invocation i ≡ valid) × (matches s i ≡ valid))
  unfolding resolve select_match
  resolve-declared s i h m o e =
      let found : candidates i.route c ≡ s ∷ [] =
        ap (λ r. candidates r c) e ∙ candidates-declared s h m o in
      let on = λ (ss : List RouteSignature).
        (validate_invocation i
          >>> refuse_if (is_nil ss) "route is not registered"
          >>> select_match none false ss i)
        ≡ ok s in
      let single = one_candidate s (validate_invocation i) (matches s i) in
      (λ k. single.0 (subst on found k), λ k. subst on (sym found) (single.1 k))
