-- ===== src/Contract/Value/Laws.antt =====
-- The validation of value.go accepts the values that it should, and counts the bytes of their JSON.
use go_mamacord.Base.{
  ℕ, zero, suc, ◌+◌, ◌≤◌, ◌≡◌, refl, ◌≢◌, ◌⊎◌, inl, inr, false, List, [], ◌∷◌, ◌++◌, arith, is_nil,
  All, GoString, str_eq_iff, byte_len, byte_len-append,
}
use go_mamacord.Contract.Value.{
  Value, unset, null, bool, int, float, string, list, object, Values, nil, cons, Fields, end, field,
  values_length, fields_length, quoted_len, is_key_seen, comma, Sized, sized, failed, ValueError,
  validate, validate_values, validate_fields,
}
use go_mamacord.Contract.Value.Json.{
  quote, quote-byte_len, separator, encode, encode_values, encode_fields, depth, depth_values,
  depth_fields, count, count_values, count_fields, IsWellFormed, AreWellFormed, AreKeyed,
}

separator-byte_len : (i : ℕ) → byte_len (separator i) ≡ comma i
unfolding byte_len
separator-byte_len zero = refl
separator-byte_len (suc i) = refl

is_key_seen_fresh :
    (k : GoString) (seen : List GoString) → is_key_seen k seen ≡ false → All (λ j. k ≢ j) seen
is_key_seen_fresh k [] h = tt
is_key_seen_fresh k (j ∷ seen) h =
    (λ e. ground (arith, str_eq_iff k j, e), is_key_seen_fresh k seen (ground arith))

is_nil_ne : (k : GoString) → is_nil k ≡ false → k ≢ []
is_nil_ne [] h e = cc
is_nil_ne (c ∷ k) h e = cc

-- What validation found of a value at a depth, with `items` counted before it and `items'` after.
abbrev pub Found : ℕ → ℕ → Value → ℕ → ℕ → Type 0
Found d items v n items' =
    (n ≡ byte_len (encode v))
    × (items' ≡ items + count v)
    × (d + depth v ≤ 16)
    × (items ≤ 500 → items' ≤ 500)
    × IsWellFormed v

abbrev FoundValues : ℕ → ℕ → ℕ → ℕ → Values → ℕ → ℕ → Type 0
FoundValues d items i size vs n items' =
    (n ≡ size + byte_len (encode_values i vs))
    × (items' + values_length vs ≡ items + count_values vs)
    × (d + depth_values vs ≤ 16)
    × (items ≤ 500 → items' ≤ 500)
    × AreWellFormed vs

abbrev FoundFields : ℕ → ℕ → ℕ → ℕ → List GoString → Fields → ℕ → ℕ → Type 0
FoundFields d items i size seen fs n items' =
    (n ≡ size + byte_len (encode_fields i fs))
    × (items' + fields_length fs ≡ items + count_fields fs)
    × (d + depth_fields fs ≤ 16)
    × (items ≤ 500 → items' ≤ 500)
    × AreKeyed seen fs

list_inv :
    (d items : ℕ) (vs : Values) {n items' : ℕ}
    → validate d items (list vs) ≡ sized n items'
    → (d ≤ 16)
      × (items + values_length vs ≤ 500)
      × (validate_values (d + 1) (items + values_length vs) 0 2 vs ≡ sized n items')
unfolding validate
list_inv d items vs h = ground arith

object_inv :
    (d items : ℕ) (fs : Fields) {n items' : ℕ}
    → validate d items (object fs) ≡ sized n items'
    → (d ≤ 16)
      × (items + fields_length fs ≤ 500)
      × (validate_fields (d + 1) (items + fields_length fs) 0 2 [] fs ≡ sized n items')
unfolding validate
object_inv d items fs h = ground arith

Sized-cases :
    (r : Sized) → ((e : ValueError) × (r ≡ failed e)) ⊎ ((n : ℕ) × (k : ℕ) × (r ≡ sized n k))
Sized-cases (failed e) = inl (e, refl)
Sized-cases (sized n k) = inr (n, k, refl)

cons_inv :
    (d items i size : ℕ) (v : Value) (vs : Values) {n items' : ℕ}
    → validate_values d items i size (cons v vs) ≡ sized n items'
    → (m : ℕ) × (k : ℕ) × (validate d items v ≡ sized m k)
      × (validate_values d k (suc i) (size + comma i + m) vs ≡ sized n items')
unfolding validate
cons_inv d items i size v vs h = elim (Sized-cases (validate d items v)) [
  | inl (e, bad) ↦ absurd (ground (arith, bad))
  | inr (m, k, good) ↦ (m, k, good, ground (arith, good))
]

field_inv :
    (d items i size : ℕ) (seen : List GoString) (key : GoString) (v : Value) (fs : Fields)
    {n items' : ℕ}
    → validate_fields d items i size seen (field key v fs) ≡ sized n items'
    → (m : ℕ) × (k : ℕ) × (validate d items v ≡ sized m k)
      × (validate_fields d k (suc i) (size + comma i + (quoted_len key + 1 + m)) (key ∷ seen) fs
          ≡ sized n items')
      × (key ≢ [])
      × All (λ j. key ≢ j) seen
unfolding validate
field_inv d items i size seen key v fs h = elim (Sized-cases (validate d items v)) [
  | inl (e, bad) ↦ absurd (ground (arith, bad))
  | inr (m, k, good) ↦ (
    m,
    k,
    good,
    ground (arith, good),
    is_nil_ne key (ground (arith, good)),
    is_key_seen_fresh key seen (ground (arith, good)),
  )
]

mutual
  unfolding validate encode depth count IsWellFormed byte_len

  pub validate_sound :
      (d items : ℕ) (v : Value) (n items' : ℕ)
      → validate d items v ≡ sized n items'
      → Found d items v n items'
  validate_sound d items unset n items' h = cc
  validate_sound d items null n items' h = ground arith
  validate_sound d items (bool b) n items' h = ground arith
  validate_sound d items (int x) n items' h = ground arith
  validate_sound d items (float x) n items' h = ground arith
  validate_sound d items (string s) n items' h = ground (arith, quote-byte_len s)
  validate_sound d items (list vs) n items' h =
      let (le, few, rest) = list_inv d items vs h in
      let (size, total, deep, many, fine) =
        values_sound d (items + values_length vs) 0 2 vs n items' le rest in
      (
        omega (arith, byte_len-append (encode_values 0 vs) (b']' ∷ [])),
        omega arith,
        deep,
        λ _. many few,
        fine,
      )
  validate_sound d items (object fs) n items' h =
      let (le, few, rest) = object_inv d items fs h in
      let (size, total, deep, many, fine) =
        fields_sound d (items + fields_length fs) 0 2 [] fs n items' le rest in
      (
        omega (arith, byte_len-append (encode_fields 0 fs) (b'}' ∷ [])),
        omega arith,
        deep,
        λ _. many few,
        fine,
      )

  values_sound :
      (d items i size : ℕ) (vs : Values) (n items' : ℕ)
      → d ≤ 16
      → validate_values (d + 1) items i size vs ≡ sized n items'
      → FoundValues d items i size vs n items'
  values_sound d items i size nil n items' le h = ground arith
  values_sound d items i size (cons v vs) n items' le h =
      let (m, k, one, more) = cons_inv (d + 1) items i size v vs h in
      let (size', total', deep', many', fine') = validate_sound (d + 1) items v m k one in
      let (size'', total'', deep'', many'', fine'') =
        values_sound d k (suc i) (size + comma i + m) vs n items' le more in
      (
        omega (
          arith,
          byte_len-append (separator i) (encode v ++ encode_values (suc i) vs),
          byte_len-append (encode v) (encode_values (suc i) vs),
          separator-byte_len i,
        ),
        omega arith,
        omega arith,
        λ le'. many'' (many' le'),
        (fine', fine''),
      )

  fields_sound :
      (d items i size : ℕ) (seen : List GoString) (fs : Fields) (n items' : ℕ)
      → d ≤ 16
      → validate_fields (d + 1) items i size seen fs ≡ sized n items'
      → FoundFields d items i size seen fs n items'
  fields_sound d items i size seen end n items' le h = ground arith
  fields_sound d items i size seen (field k v fs) n items' le h =
      let (m, k', one, more, named, fresh) = field_inv (d + 1) items i size seen k v fs h in
      let (size', total', deep', many', fine') = validate_sound (d + 1) items v m k' one in
      let (size'', total'', deep'', many'', fine'') =
        fields_sound d k' (suc i) (size + comma i + (quoted_len k + 1 + m)) (k ∷ seen) fs n items'
          le more in
      (
        omega (
          arith,
          byte_len-append (separator i) (quote k ++ b':' ∷ (encode v ++ encode_fields (suc i) fs)),
          byte_len-append (quote k) (b':' ∷ (encode v ++ encode_fields (suc i) fs)),
          byte_len-append (encode v) (encode_fields (suc i) fs),
          separator-byte_len i,
          quote-byte_len k,
        ),
        omega arith,
        omega arith,
        λ le'. many'' (many' le'),
        (named, fresh, fine', fine''),
      )
