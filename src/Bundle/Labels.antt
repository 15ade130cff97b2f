-- ===== src/Bundle/Labels.antt =====
-- Labels of modules: the canonical one is the label itself, and it stays below the bundle's root.
use go_mamacord.Base.{
  ◌≡◌, sym, ap, subst, ◌∙◌, inl, inr, ℕ, ◌+◌, ◌≤◌, Bool, true, false, not, ◌||◌, [], ◌∷◌, ◌++◌,
  if◌then◌else◌, ◌==◌, ==_iff, arith, any, is_nil, GoString, codes, str_eq, has_prefix, has_rune,
  split_on, Bool-cases,
}
use go_mamacord.Contract.Verdict.{valid, refuse_if, refuse_if-valid, >>-valid, ok, >>>-eq-ok}
use go_mamacord.Bundle.{
  api_label, cut_if, cut_colon, count_of, ends_in, is_hidden, drop_two, validate_directory,
  canonical_label,
}

cut_colon-join :
    (s : GoString) → 1 ≤ count_of b':' s → s ≡ (cut_colon s).0 ++ (b':' ∷ (cut_colon s).1)
unfolding cut_colon count_of
cut_colon-join [] h = absurd (omega arith)
cut_colon-join (c ∷ s) h =
    let on = λ (b : Bool).
      (c ∷ s) ≡ (cut_if b c s (cut_colon s)).0 ++ (b':' ∷ (cut_if b c s (cut_colon s)).1) in
    elim (Bool-cases (c == b':')) [
      | inl y ↦ subst on (sym y) (ap (λ x. x ∷ s) ((==_iff c b':').0 y))
      | inr y ↦
          let later : 1 ≤ 0 + count_of b':' s =
            subst (λ b. 1 ≤ (if b then 1 else 0) + count_of b':' s) y h in
          subst on (sym y) (ap (λ x. c ∷ x) (cut_colon-join s (omega arith)))
    ]

neither : (a b c : Bool) → (a || b || c) ≡ false → (a ≡ false) × (b ≡ false)
neither a b c h = ground arith

one_colon : (n : ℕ) → not (n == 1) ≡ false → 1 ≤ n
one_colon n h = ground arith

given : (b : Bool) → not b ≡ false → b ≡ true
given b h = ground arith

drop_two-join : (s : GoString) → has_prefix s (codes "//") ≡ true → s ≡ codes "//" ++ drop_two s
unfolding has_prefix
drop_two-join [] h = cc
drop_two-join (a ∷ []) h = ground arith
drop_two-join (a ∷ b ∷ s) h = ground arith

-- Every part of the directory is there and not hidden, so that none is `.` or `..`.
abbrev pub IsVisible : GoString → Type 0
IsVisible [] = Unit
IsVisible (c ∷ s) = any (λ part. is_nil part || is_hidden part) (split_on b'/' (c ∷ s)) ≡ false

module _ (clean : GoString → GoString) where
  directory-IsVisible : (d : GoString) → validate_directory clean d ≡ valid → IsVisible d
  directory-IsVisible [] h = tt
  directory-IsVisible (c ∷ s) h = (refuse_if-valid _ _).0 ((>>-valid _ _).0 h).1

  -- A label that is accepted is its own canonical label; its file is not hidden and has no slash, and
  -- no part of its directory is hidden, so that it names a file below the root of the bundle.
  pub canonical_label-same :
      (raw label : GoString)
      → canonical_label clean raw ≡ ok label
      → (label ≡ raw)
        × (has_rune b'/' (cut_colon (drop_two raw)).1 ≡ false)
        × (is_hidden (cut_colon (drop_two raw)).1 ≡ false)
        × IsVisible (cut_colon (drop_two raw)).0
  unfolding canonical_label
  canonical_label-same raw label h =
      let parts = cut_colon (drop_two raw) in
      let name = str_eq raw api_label in
      let count = not (count_of b':' (drop_two raw) == 1) in
      let (v1, h1) = >>>-eq-ok (refuse_if name _) _ h in
      let (v2, h2) = >>>-eq-ok (refuse_if (has_rune 0 raw || has_rune b'\\' raw) _) _ h1 in
      let (v3, h3) = >>>-eq-ok (refuse_if (not (has_prefix raw (codes "//"))) _) _ h2 in
      let (v4, h4) = >>>-eq-ok (refuse_if count _) _ h3 in
      let (v5, h5) = >>>-eq-ok (refuse_if (is_nil parts.1) _) _ h4 in
      let (v6, h6) =
        >>>-eq-ok
          (refuse_if
            (has_rune b'/' parts.1 || is_hidden parts.1 || not (ends_in (codes ".star") parts.1)) _)
          _ h5 in
      let (v7, h7) = >>>-eq-ok (validate_directory clean parts.0) _ h6 in
      let prefixed = (refuse_if-valid (not (has_prefix raw (codes "//"))) _).0 v3 in
      let counted = (refuse_if-valid count _).0 v4 in
      let named = (refuse_if-valid _ _).0 v6 in
      let names =
        neither (has_rune b'/' parts.1) (is_hidden parts.1) (not (ends_in (codes ".star") parts.1))
          named in
      let made : codes "//" ++ (parts.0 ++ (b':' ∷ parts.1)) ≡ label = cc h7 in
      let whole =
        cut_colon-join (drop_two raw) (one_colon (count_of b':' (drop_two raw)) counted) in
      (
        sym made
            ∙ ap (λ s. codes "//" ++ s) (sym whole)
            ∙ sym (drop_two-join raw (given (has_prefix raw (codes "//")) prefixed)),
        names.0,
        names.1,
        directory-IsVisible parts.0 v7,
      )
