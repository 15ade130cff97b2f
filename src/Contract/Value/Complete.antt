-- ===== src/Contract/Value/Complete.antt =====
-- The validation of value.go refuses no value that is acceptable; with Laws, exactly those pass.
use go_mamacord.Base.{
  ℕ, suc, ◌+◌, ◌≤◌, ◌≡◌, refl, ◌≢◌, ◌↔◌, false, List, [], ◌∷◌, arith, if◌then◌else◌, is_nil, All,
  GoString, str_eq_iff, byte_len,
}
use go_mamacord.Contract.Value.{
  Value, unset, null, bool, int, float, string, list, object, Values, nil, cons, Fields, end, field,
  values_length, fields_length, format_int, quoted_len, is_key_seen, comma, Sized, sized, failed,
  validate, validate_values, validate_fields, encoded_size, validate_state, check_state_size,
}
use go_mamacord.Contract.Value.Json.{
  encode, depth, depth_values, depth_fields, count, count_values, count_fields, IsWellFormed,
  AreWellFormed, AreKeyed,
}
use go_mamacord.Contract.Value.Laws.{validate_sound}

is_key_seen_of_fresh :
    (k : GoString) (seen : List GoString) → All (λ j. k ≢ j) seen → is_key_seen k seen ≡ false
is_key_seen_of_fresh k [] h = refl
is_key_seen_of_fresh k (j ∷ seen) h =
    ground (arith, str_eq_iff k j, h.0, is_key_seen_of_fresh k seen h.1)

is_nil_of_ne : (k : GoString) → k ≢ [] → is_nil k ≡ false
is_nil_of_ne [] h = absurd (h refl)
is_nil_of_ne (c ∷ k) h = refl

list_intro :
    (d items : ℕ) (vs : Values) {n k : ℕ}
    → d ≤ 16
    → items + values_length vs ≤ 500
    → validate_values (d + 1) (items + values_length vs) 0 2 vs ≡ sized n k
    → validate d items (list vs) ≡ sized n k
unfolding validate
list_intro d items vs le few e = ground arith

object_intro :
    (d items : ℕ) (fs : Fields) {n k : ℕ}
    → d ≤ 16
    → items + fields_length fs ≤ 500
    → validate_fields (d + 1) (items + fields_length fs) 0 2 [] fs ≡ sized n k
    → validate d items (object fs) ≡ sized n k
unfolding validate
object_intro d items fs le few e = ground arith

mutual
  unfolding depth count IsWellFormed

  values_length-le : (vs : Values) → values_length vs ≤ count_values vs
  values_length-le nil = omega arith
  values_length-le (cons v vs) = omega (arith, values_length-le vs)

mutual
  unfolding depth count IsWellFormed

  fields_length-le : (fs : Fields) → fields_length fs ≤ count_fields fs
  fields_length-le end = omega arith
  fields_length-le (field k v fs) = omega (arith, fields_length-le fs)

mutual
  unfolding validate depth count IsWellFormed

  validate_complete :
      (d items : ℕ) (v : Value)
      → d + depth v ≤ 16
      → items + count v ≤ 500
      → IsWellFormed v
      → (n : ℕ) × (k : ℕ) × (validate d items v ≡ sized n k)
  validate_complete d items unset le few fine = absurd fine
  validate_complete d items null le few fine = (4, items, ground arith)
  validate_complete d items (bool b) le few fine = (if b then 4 else 5, items, ground arith)
  validate_complete d items (int x) le few fine = (byte_len (format_int x), items, ground arith)
  validate_complete d items (float x) le few fine = (byte_len x.text, items, ground arith)
  validate_complete d items (string s) le few fine = (quoted_len s, items, ground arith)
  validate_complete d items (list vs) le few fine =
      let room = values_length-le vs in
      let (n, k, e) = values_complete d (items + values_length vs) 0 2 vs le (omega arith) fine in
      (n, k, list_intro d items vs (omega arith) (omega arith) e)
  validate_complete d items (object fs) le few fine =
      let room = fields_length-le fs in
      let (n, k, e) =
        fields_complete d (items + fields_length fs) 0 2 [] fs le (omega arith) fine in
      (n, k, object_intro d items fs (omega arith) (omega arith) e)

  values_complete :
      (d items i size : ℕ) (vs : Values)
      → d + depth_values vs ≤ 16
      → items + count_values vs ≤ 500 + values_length vs
      → AreWellFormed vs
      → (n : ℕ) × (k : ℕ) × (validate_values (d + 1) items i size vs ≡ sized n k)
  values_complete d items i size nil le few fine = (size, items, refl)
  values_complete d items i size (cons v vs) le few fine =
      let room = values_length-le vs in
      let (m, j, one) = validate_complete (d + 1) items v (omega arith) (omega arith) fine.0 in
      let found = validate_sound (d + 1) items v m j one in
      let (n, k, e) =
        values_complete d j (suc i) (size + comma i + m) vs (omega arith) (omega (arith, found.1))
          fine.1 in
      (n, k, ground (arith, one, e))

  fields_complete :
      (d items i size : ℕ) (seen : List GoString) (fs : Fields)
      → d + depth_fields fs ≤ 16
      → items + count_fields fs ≤ 500 + fields_length fs
      → AreKeyed seen fs
      → (n : ℕ) × (k : ℕ) × (validate_fields (d + 1) items i size seen fs ≡ sized n k)
  fields_complete d items i size seen end le few fine = (size, items, refl)
  fields_complete d items i size seen (field key v fs) le few fine =
      let room = fields_length-le fs in
      let (m, j, one) = validate_complete (d + 1) items v (omega arith) (omega arith) fine.2 in
      let found = validate_sound (d + 1) items v m j one in
      let (n, k, e) =
        fields_complete d j (suc i) (size + comma i + (quoted_len key + 1 + m)) (key ∷ seen) fs
          (omega arith) (omega (arith, found.1)) fine.3 in
      (n, k, ground (arith, one, e, is_nil_of_ne key fine.0, is_key_seen_of_fresh key seen fine.1))

-- The size of a value is given exactly when it is nested at most 16 deep, has at most 500 elements
-- and fields in all, and is well formed; it is then the number of bytes of its JSON text.
pub encoded_size_iff :
    (v : Value) (n k : ℕ)
    → (encoded_size v ≡ sized n k) ↔ (
        (depth v ≤ 16)
        × (count v ≤ 500)
        × IsWellFormed v
        × (n ≡ byte_len (encode v))
        × (k ≡ count v))
unfolding encoded_size
encoded_size_iff v n k = (
  λ h.
      let (size, total, deep, many, fine) = validate_sound 0 0 v n k h in
      (omega arith, omega (arith, many (omega arith)), fine, size, omega arith),
  λ h.
      let (n', k', e) = validate_complete 0 0 v (omega (arith, h.0)) (omega (arith, h.1)) h.2 in
      let (size', total', _, _, _) = validate_sound 0 0 v n' k' e in ground (arith, e, h.3, h.4),
)

check_state_size_inv :
    (r : Sized) (n k : ℕ) → check_state_size r ≡ sized n k → (r ≡ sized n k) × (n ≤ 16384)
check_state_size_inv (failed e) n k h = cc
check_state_size_inv (sized m j) n k h = ground arith

-- A value may be kept in a plugin's state exactly when it has a size of at most 16384 bytes.
pub validate_state_iff :
    (v : Value) (n k : ℕ)
    → (validate_state v ≡ sized n k) ↔ (
        (depth v ≤ 16)
        × (count v ≤ 500)
        × IsWellFormed v
        × (n ≡ byte_len (encode v))
        × (k ≡ count v)
        × (n ≤ 16384))
unfolding validate_state
validate_state_iff v n k = (
  λ h.
      let (e, small) = check_state_size_inv (encoded_size v) n k h in
      let (a, b, c, d, f) = (encoded_size_iff v n k).0 e in (a, b, c, d, f, small),
  λ h. let e = (encoded_size_iff v n k).1 (h.0, h.1, h.2, h.3, h.4) in rw e (ground (arith, h.5)),
)
