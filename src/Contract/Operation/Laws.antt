-- ===== src/Contract/Operation/Laws.antt =====
-- What an accepted outcome is (operation.go).
use go_mamacord.Base.{
  ◌≤◌, ◌≡◌, refl, ◌↔◌, Bool, true, false, not, ◌&&◌, ◌||◌, Option, none, some, String, List, [],
  ◌∷◌, arith, ltb, length, is_nil, All, GoString,
}
use go_mamacord.Contract.Verdict.{valid, refuse_if, >>-valid, refuse_if-valid}
use go_mamacord.Contract.Inputs.{is_kind, Invocation, autocomplete}
use go_mamacord.Contract.Operation.{
  Operation, choices, is_terminal, is_choices, requires_terminal, validate_end, validate_operation,
  validate_from, validate_operations,
}

-- The operation is there and is valid in the invocation.
abbrev pub IsValidIn : (GoString → Bool) → Invocation → Option Operation → Type 0
IsValidIn https i none = ⊥
IsValidIn https i (some o) = validate_operation https i o ≡ valid

abbrev pub answers : (Operation → Bool) → Option Operation → Bool
answers p none = false
answers p (some o) = p o

-- Only the last operation may answer the interaction.
abbrev pub AnswersLast : List (Option Operation) → Type 0
AnswersLast [] = Unit
AnswersLast (o ∷ []) = Unit
AnswersLast (o ∷ p ∷ os) = (answers is_terminal o ≡ false) × AnswersLast (p ∷ os)

-- The last operation passes the test.
abbrev pub ends_with : (Operation → Bool) → List (Option Operation) → Bool
ends_with p [] = false
ends_with p (o ∷ []) = answers p o
ends_with p (o ∷ q ∷ os) = ends_with p (q ∷ os)

gate_iff :
    (a t : Bool) (text : String) → (refuse_if (a && not t) text ≡ valid) ↔ (a ≡ true → t ≡ true)
gate_iff true true text = (λ h k. refl, λ h. refl)
gate_iff true false text = (λ h k. cc, λ h. cc (h refl))
gate_iff false t text = (λ h k. cc, λ h. refl)

validate_end_iff :
    (i : Invocation) (terminal chosen : Bool)
    → (validate_end i terminal chosen ≡ valid) ↔ (
        (requires_terminal i ≡ true → terminal ≡ true)
        × (is_kind autocomplete i ≡ true → chosen ≡ true))
unfolding validate_end
validate_end_iff i terminal chosen =
    let first =
      gate_iff (requires_terminal i) terminal "interaction outcome requires a terminal response" in
    let second = gate_iff (is_kind autocomplete i) chosen "autocomplete outcome requires choices" in
    let both =
      >>-valid
        (refuse_if (requires_terminal i && not terminal)
          "interaction outcome requires a terminal response")
        (refuse_if (is_kind autocomplete i && not chosen)
          "autocomplete outcome requires choices") in
    (λ h. (first.0 (both.0 h).0, second.0 (both.0 h).1), λ h. both.1 (first.1 h.0, second.1 h.1))

choices_answer : (o : Operation) → is_choices o ≡ true → is_terminal o ≡ true
choices_answer (choices cs) h = refl
choices_answer _ h = ground arith

-- The flags of the loop: whoever gave choices has answered.
flags_step :
    (t c : Bool) (o : Operation)
    → (c ≡ true → t ≡ true)
    → (c || is_choices o) ≡ true
    → (t || is_terminal o) ≡ true
flags_step t true o h k = rw (h refl) refl
flags_step t false o h k = rw (choices_answer o k) (ground arith)

unchosen : (t c : Bool) → (c ≡ true → t ≡ true) → t ≡ false → c ≡ false
unchosen t true h k = cc (h refl)
unchosen t false h k = refl

or-false : (a b : Bool) → (a || b) ≡ false → b ≡ false
or-false a b h = ground arith

module _ (https : GoString → Bool) (i : Invocation) where
  from_inv :
      (t c : Bool) (o : Operation) (os : List (Option Operation))
      → validate_from https i t c (some o ∷ os) ≡ valid
      → (t ≡ false)
        × (validate_operation https i o ≡ valid)
        × (validate_from https i (t || is_terminal o) (c || is_choices o) os ≡ valid)
  unfolding validate_from
  from_inv t c o os h = ground arith

  from_intro :
      (t c : Bool) (o : Operation) (os : List (Option Operation))
      → t ≡ false
      → validate_operation https i o ≡ valid
      → validate_from https i (t || is_terminal o) (c || is_choices o) os ≡ valid
      → validate_from https i t c (some o ∷ os) ≡ valid
  unfolding validate_from
  from_intro t c o os h v r = ground arith

  -- What the loop leaves as its flag for a test, from the flag so far.
  abbrev end_flag : (Operation → Bool) → Bool → List (Option Operation) → Bool
  end_flag p t [] = t
  end_flag p t (o ∷ os) = ends_with p (o ∷ os)

  abbrev Accepts : Bool → Bool → List (Option Operation) → Type 0
  Accepts t c os =
      All (IsValidIn https i) os
      × (is_nil os ≡ false → t ≡ false)
      × AnswersLast os
      × (requires_terminal i ≡ true → end_flag is_terminal t os ≡ true)
      × (is_kind autocomplete i ≡ true → end_flag is_choices c os ≡ true)

  flag_end :
      (p : Operation → Bool) (os : List (Option Operation))
      → end_flag p false os ≡ true
      → ends_with p os ≡ true
  flag_end p [] h = h
  flag_end p (o ∷ os) h = h

  end_of_flag :
      (p : Operation → Bool) (os : List (Option Operation))
      → ends_with p os ≡ true
      → end_flag p false os ≡ true
  end_of_flag p [] h = h
  end_of_flag p (o ∷ os) h = h

  from_sound :
      (t c : Bool) (os : List (Option Operation))
      → (c ≡ true → t ≡ true)
      → validate_from https i t c os ≡ valid
      → Accepts t c os
  unfolding validate_from
  from_sound t c [] flags h = let e = (validate_end_iff i t c).0 h in (tt, λ k. cc, tt, e.0, e.1)
  from_sound t c (none ∷ os) flags h = cc
  from_sound t c (some o ∷ []) flags h =
      let (open_, ok, rest) = from_inv t c o [] h in
      let e = (validate_end_iff i (t || is_terminal o) (c || is_choices o)).0 rest in
      (
        (ok, tt),
        λ _. open_,
        tt,
        λ k. rw open_ at (e.0 k),
        λ k. rw (unchosen t c flags open_) at (e.1 k),
      )
  from_sound t c (some o ∷ p ∷ os) flags h =
      let (open_, ok, rest) = from_inv t c o (p ∷ os) h in
      let (fine, later, last, e, f) =
        from_sound (t || is_terminal o) (c || is_choices o) (p ∷ os) (flags_step t c o flags)
          rest in
      ((ok, fine), λ _. open_, (or-false t (is_terminal o) (later refl), last), e, f)

  from_complete :
      (t c : Bool) (os : List (Option Operation))
      → (c ≡ true → t ≡ true)
      → Accepts t c os
      → validate_from https i t c os ≡ valid
  unfolding validate_from
  from_complete t c [] flags (_, _, _, e, f) = (validate_end_iff i t c).1 (e, f)
  from_complete t c (none ∷ os) flags (h, _, _, _, _) = absurd h.0
  from_complete t c (some o ∷ []) flags (h, open_, _, e, f) = from_intro t c o [] (open_ refl) h.0 (
      (validate_end_iff i (t || is_terminal o) (c || is_choices o)).1
        (λ k. rw (e k) (ground arith), λ k. rw (f k) (ground arith)))
  from_complete t c (some o ∷ p ∷ os) flags (h, open_, last, e, f) =
      from_intro t c o (p ∷ os) (open_ refl) h.0 (
        from_complete (t || is_terminal o) (c || is_choices o) (p ∷ os) (flags_step t c o flags)
          (h.1, λ _. rw (open_ refl) last.0, last.1, e, f))

  -- An outcome is accepted exactly when it has at most 25 operations, each of them is there and
  -- valid, only the last one answers the interaction, the last one does answer it where the
  -- invocation asks for an answer, and it gives choices where the invocation is an autocompletion.
  pub validate_operations_iff :
      (os : List (Option Operation))
      → (validate_operations https i os ≡ valid) ↔ (
          (length os ≤ 25)
          × All (IsValidIn https i) os
          × AnswersLast os
          × (requires_terminal i ≡ true → ends_with is_terminal os ≡ true)
          × (is_kind autocomplete i ≡ true → ends_with is_choices os ≡ true))
  unfolding validate_operations
  validate_operations_iff os =
      let few = refuse_if-valid (ltb 25 (length os)) "outcome exceeds 25 operations" in
      let both =
        >>-valid (refuse_if (ltb 25 (length os)) "outcome exceeds 25 operations")
          (validate_from https i false false os) in
      (
        λ h.
            let (all, _, last, e, f) = from_sound false false os (λ k. k) (both.0 h).1 in
            let short = few.0 (both.0 h).0 in
            (
              ground (arith, short),
              all,
              last,
              λ k. flag_end is_terminal os (e k),
              λ k. flag_end is_choices os (f k),
            ),
        λ h. both.1 (
          few.1 (ground (arith, h.0)),
          from_complete false false os (λ k. k)
              (
                h.1,
                λ _. refl,
                h.2,
                λ k. end_of_flag is_terminal os (h.3 k),
                λ k. end_of_flag is_choices os (h.4 k),
              ),
        ),
      )
