-- ===== src/Contract/Verdict.antt =====
-- The results of the validations of internal/runtime/plugins/contract: nil, or an error with its text.
-- A chain `a >> b` is `if err := a; err != nil { return err }; return b`. Where an error's text in the
-- source names the value, the text here leaves the value out.
use go_mamacord.Base.{◌≡◌, refl, ◌↔◌, Bool, true, false, String, List, [], ◌∷◌, All}

pub data Verdict : Type 0 where
  valid : Verdict
  invalid : String → Verdict

infixr 5 ◌>>◌
abbrev pub ◌>>◌ : Verdict → Verdict → Verdict
valid >> b = b
invalid e >> b = invalid e

-- `if test { return errors.New(text) }`
abbrev pub refuse_if : Bool → String → Verdict
refuse_if true text = invalid text
refuse_if false text = valid

-- `for _, item := range items { if err := check(item); err != nil { return err } }`
abbrev pub each {ℓ} : {A : Type ℓ} → (A → Verdict) → List A → Verdict
each check [] = valid
each check (x ∷ xs) = check x >> each check xs

pub >>-valid : (a b : Verdict) → ((a >> b) ≡ valid) ↔ ((a ≡ valid) × (b ≡ valid))
>>-valid valid b = (λ h. (refl, h), λ h. h.1)
>>-valid (invalid e) b = (λ h. cc, λ h. h.0)

pub refuse_if-valid : (t : Bool) (text : String) → (refuse_if t text ≡ valid) ↔ (t ≡ false)
refuse_if-valid true text = (λ h. cc, λ h. cc)
refuse_if-valid false text = (λ h. refl, λ h. refl)

pub each-valid {ℓ} :
    {A : Type ℓ} (check : A → Verdict) (xs : List A)
    → (each check xs ≡ valid) ↔ All (λ x. check x ≡ valid) xs
each-valid check [] = (λ h. tt, λ h. refl)
each-valid check (x ∷ xs) = (
  λ h.
      let parts = (>>-valid (check x) (each check xs)).0 h in
      (parts.0, (each-valid check xs).0 parts.1),
  λ h. (>>-valid (check x) (each check xs)).1 (h.0, (each-valid check xs).1 h.1),
)

-- A value with an error: `(A, error)`.
pub data Result {ℓ} (A : Type ℓ) : Type ℓ where
  ok : A → Result A
  error : String → Result A

module _ {ℓ κ} {S : Type κ} {A : Type ℓ} where
  infixl 5 ◌>>=◌
  -- `state, err := first; if err != nil { return zero, err }; return next(state)`
  abbrev pub ◌>>=◌ : Result S → (S → Result A) → Result A
  error text >>= next = error text
  ok state >>= next = next state

  -- If both parts succeed, the first gave the state that the next one needs.
  pub >>=-eq-ok :
      (first : Result S) (next : S → Result A) {end : A}
      → (first >>= next) ≡ ok end
      → (state : S) × (first ≡ ok state) × (next state ≡ ok end)
  >>=-eq-ok (error text) next h = cc
  >>=-eq-ok (ok state) next h = (state, refl, h)

-- `if err := a; err != nil { return zero, err }; return b`
infixr 5 ◌>>>◌
abbrev pub ◌>>>◌ {ℓ} : {A : Type ℓ} → Verdict → Result A → Result A
valid >>> b = b
invalid e >>> b = error e

abbrev pub verdict_of {ℓ} : {A : Type ℓ} → Result A → Verdict
verdict_of (ok a) = valid
verdict_of (error e) = invalid e

-- `for _, item := range items { if err := step(item); err != nil { return err } }`, where the step
-- changes a state.
unfoldable pub for_each {ℓ κ} :
    {A : Type ℓ} {S : Type κ} → (A → S → Result S) → List A → S → Result S
for_each step [] s = ok s
for_each step (x ∷ xs) s = step x s >>= λ t. for_each step xs t

pub >>>-eq-ok {ℓ} :
    {A : Type ℓ} (v : Verdict) (m : Result A) {a : A} → (v >>> m) ≡ ok a → (v ≡ valid) × (m ≡ ok a)
>>>-eq-ok valid m h = (refl, h)
>>>-eq-ok (invalid e) m h = cc

pub verdict_of-valid {ℓ} : {A : Type ℓ} (m : Result A) → verdict_of m ≡ valid → (a : A) × (m ≡ ok a)
verdict_of-valid (ok a) h = (a, refl)
verdict_of-valid (error e) h = cc
