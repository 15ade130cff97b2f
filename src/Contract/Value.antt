-- ===== src/Contract/Value.antt =====
-- value.go: the values that a plugin keeps in its state and sends to the host, and their validation.
-- A float64 is known by whether it is finite, by the text that encoding/json gives for it, by its bits,
-- and by its place in the order of the float64 values, which is 0 for both zeros. Text is valid UTF-8
-- by its type, so that the tests of `utf8.ValidString` are left out. Values are immutable here, so
-- that `Clone` is the identity.
pub mod Json
pub mod Laws
pub mod Complete
mod Tests
use go_mamacord.Base.{
  ℕ, zero, suc, ◌+◌, ◌-◌, ◌*◌, ◌/◌, ◌%◌, Bool, true, false, not, ◌&&◌, ◌||◌, Option, none, some,
  List, [], ◌∷◌, ◌++◌, ltb, leb, ◌==◌, if◌then◌else◌, is_nil, any, GoString, codes, str_eq,
  byte_len, rune_len, ℤ, pos, negsuc, is_zero_ℤ, ltb_ℤ, eq_ℤ,
}

abbrev pub max_value_depth : ℕ
max_value_depth = 16

abbrev pub max_value_items : ℕ
max_value_items = 500

abbrev pub max_state_value_bytes : ℕ
max_state_value_bytes = 16384

pub record Float64 : Type 0 where
  pub finite : Bool
  pub text : GoString
  pub bits : ℕ
  pub rank : ℤ

-- `x != 0`, and `x < y` and `x == y` of finite values.
abbrev pub is_nonzero : Float64 → Bool
is_nonzero x = not x.finite || not (is_zero_ℤ x.rank)

abbrev pub float_lt : Float64 → Float64 → Bool
float_lt x y = ltb_ℤ x.rank y.rank

abbrev pub float_eq : Float64 → Float64 → Bool
float_eq x y = eq_ℤ x.rank y.rank

mutual
  -- `unset` is the zero `Value`, whose kind is the empty text.
  pub data Value : Type 0 where
    unset : Value
    null : Value
    bool : Bool → Value
    int : ℤ → Value
    float : Float64 → Value
    string : GoString → Value
    list : Values → Value
    object : Fields → Value

  pub data Values : Type 0 where
    nil : Values
    cons : Value → Values → Values

  pub data Fields : Type 0 where
    end : Fields
    field : GoString → Value → Fields → Fields

abbrev pub values_length : Values → ℕ
values_length nil = 0
values_length (cons v vs) = suc (values_length vs)

abbrev pub fields_length : Fields → ℕ
fields_length end = 0
fields_length (field k v fs) = suc (fields_length fs)

pub data ValueError : Type 0 where
  too_deep too_many not_finite empty_key duplicate_key too_large unsupported : ValueError

-- A size, with the count of items so far.
pub data Sized : Type 0 where
  sized : ℕ → ℕ → Sized
  failed : ValueError → Sized

-- `strconv.FormatInt(n, 10)`: the decimal digits of a number, which has at most as many as the fuel.
unfoldable pub decimal : ℕ → ℕ → GoString
decimal zero n = []
decimal (suc fuel) n =
    let rest = decimal fuel (n / 10) in
    if ltb n 10 then (n + b'0') ∷ [] else rest ++ (n % 10 + b'0') ∷ []

-- The digits of an int64 are at most 19.
abbrev pub int_fuel : ℕ
int_fuel = 20

unfoldable pub format_int : ℤ → GoString
unfolding decimal
format_int (pos n) = decimal int_fuel n
format_int (negsuc n) = b'-' ∷ decimal int_fuel (suc n)

-- The bytes that encoding/json writes for a code point in a string.
unfoldable pub escaped_len : ℕ → ℕ
escaped_len c =
    if c == b'"' || c == 0x5c || c == 8 || c == 9 || c == 10 || c == 12 || c == 13
    then 2
    else if ltb c 0x20 || c == b'<' || c == b'>' || c == b'&' || c == 0x2028 || c == 0x2029
    then 6
    else rune_len c

unfoldable pub quoted_len : GoString → ℕ
unfolding escaped_len
quoted_len [] = 2
quoted_len (c ∷ s) = escaped_len c + quoted_len s

abbrev pub is_key_seen : GoString → List GoString → Bool
is_key_seen k seen = any (str_eq k) seen

-- `size++` from the second element on.
abbrev pub comma : ℕ → ℕ
comma zero = 0
comma (suc i) = 1

unfoldable mutual
  pub validate : ℕ → ℕ → Value → Sized
  validate depth items unset = failed (if ltb max_value_depth depth then too_deep else unsupported)
  validate depth items null = if ltb max_value_depth depth then failed too_deep else sized 4 items
  validate depth items (bool b) =
      if ltb max_value_depth depth then failed too_deep else sized (if b then 4 else 5) items
  validate depth items (int n) =
      if ltb max_value_depth depth then failed too_deep else sized (byte_len (format_int n)) items
  validate depth items (float x) =
      if ltb max_value_depth depth
      then failed too_deep
      else if not x.finite
      then failed not_finite
      else sized (byte_len x.text) items
  validate depth items (string s) =
      if ltb max_value_depth depth then failed too_deep else sized (quoted_len s) items
  validate depth items (list vs) =
      let total = items + values_length vs in
      let rest = validate_values (depth + 1) total 0 2 vs in
      if ltb max_value_depth depth
      then failed too_deep
      else if ltb max_value_items total
      then failed too_many
      else rest
  validate depth items (object fs) =
      let total = items + fields_length fs in
      let rest = validate_fields (depth + 1) total 0 2 [] fs in
      if ltb max_value_depth depth
      then failed too_deep
      else if ltb max_value_items total
      then failed too_many
      else rest

  -- The loop over the elements of a list: the index and the size so far.
  pub validate_values : ℕ → ℕ → ℕ → ℕ → Values → Sized
  validate_values depth items index size nil = sized size items
  validate_values depth items index size (cons v vs) = elim (validate depth items v) [
    | failed e ↦ failed e
    | sized n items' ↦ validate_values depth items' (suc index) (size + comma index + n) vs
  ]

  -- The loop over the fields of an object: also the keys that were seen.
  pub validate_fields : ℕ → ℕ → ℕ → ℕ → List GoString → Fields → Sized
  validate_fields depth items index size seen end = sized size items
  validate_fields depth items index size seen (field k v fs) =
      if is_nil k
      then failed empty_key
      else if is_key_seen k seen
      then failed duplicate_key
      else elim (validate depth items v) [
        | failed e ↦ failed e
        | sized n items' ↦
            validate_fields depth items' (suc index) (size + comma index + (quoted_len k + 1 + n))
              (k ∷ seen) fs
      ]

unfoldable pub encoded_size : Value → Sized
unfolding validate
encoded_size v = validate 0 0 v

abbrev pub check_state_size : Sized → Sized
check_state_size (failed e) = failed e
check_state_size (sized n items) =
    if ltb max_state_value_bytes n then failed too_large else sized n items

unfoldable pub validate_state : Value → Sized
validate_state v = check_state_size (encoded_size v)
