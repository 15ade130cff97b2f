-- ===== src/Contract/Value/Json.antt =====
-- The JSON text of a value, as encoding/json writes it, and what makes a value acceptable: the
-- reference that the validation of value.go is compared with.
use go_mamacord.Base.{
  ℕ, zero, suc, ◌+◌, ◌/◌, ◌%◌, max, ◌≡◌, refl, ◌≢◌, true, ◌||◌, List, [], ◌∷◌, ◌++◌, arith, ltb,
  ◌==◌, if◌then◌else◌, All, GoString, codes, byte_len, byte_len-append, rune_len,
}
use go_mamacord.Contract.Value.{
  Value, unset, null, bool, int, float, string, list, object, Values, nil, cons, Fields, end, field,
  format_int, escaped_len, quoted_len,
}

hex_digit : ℕ → ℕ
hex_digit d = if ltb (d % 16) 10 then d % 16 + b'0' else d % 16 + 87

-- `\u` and four digits.
unicode_escape : ℕ → GoString
unfolding hex_digit
unicode_escape c =
    0x5c ∷ b'u' ∷ hex_digit (c / 4096) ∷ hex_digit (c / 256) ∷ hex_digit (c / 16) ∷ hex_digit c ∷ []

short_escape : ℕ → ℕ
short_escape c =
    if c == 8
    then b'b'
    else if c == 9
    then b't'
    else if c == 10
    then b'n'
    else if c == 12
    then b'f'
    else if c == 13
    then b'r'
    else c

pub escape : ℕ → GoString
unfolding unicode_escape short_escape
escape c =
    if c == b'"' || c == 0x5c || c == 8 || c == 9 || c == 10 || c == 12 || c == 13
    then 0x5c ∷ short_escape c ∷ []
    else if ltb c 0x20 || c == b'<' || c == b'>' || c == b'&' || c == 0x2028 || c == 0x2029
    then unicode_escape c
    else c ∷ []

pub escape_all : GoString → GoString
unfolding escape
escape_all [] = []
escape_all (c ∷ s) = escape c ++ escape_all s

pub quote : GoString → GoString
unfolding escape_all
quote s = b'"' ∷ (escape_all s ++ b'"' ∷ [])

hex_digit-rune_len : (d : ℕ) → rune_len (hex_digit d) ≡ 1
unfolding hex_digit
hex_digit-rune_len d = ground arith

unicode_escape-byte_len : (c : ℕ) → byte_len (unicode_escape c) ≡ 6
unfolding unicode_escape byte_len
unicode_escape-byte_len c = omega (
  arith,
  hex_digit-rune_len (c / 4096),
  hex_digit-rune_len (c / 256),
  hex_digit-rune_len (c / 16),
  hex_digit-rune_len c,
)

escape-byte_len : (c : ℕ) → byte_len (escape c) ≡ escaped_len c
unfolding escape escaped_len byte_len
escape-byte_len c = ground (arith, unicode_escape-byte_len c)

escape_all-byte_len : (s : GoString) → byte_len (escape_all s) + 2 ≡ quoted_len s
unfolding escape_all quoted_len byte_len
escape_all-byte_len [] = refl
escape_all-byte_len (c ∷ s) =
    omega
      (arith, byte_len-append (escape c) (escape_all s), escape-byte_len c, escape_all-byte_len s)

-- The size that the validation counts for a text is that of the quoted text.
pub quote-byte_len : (s : GoString) → byte_len (quote s) ≡ quoted_len s
unfolding quote byte_len
quote-byte_len s = omega (arith, byte_len-append (escape_all s) (b'"' ∷ []), escape_all-byte_len s)

-- A comma stands before every element but the first.
abbrev pub separator : ℕ → GoString
separator zero = []
separator (suc i) = b',' ∷ []

unfoldable mutual
  pub encode : Value → GoString
  encode unset = []
  encode null = codes "null"
  encode (bool b) = if b then codes "true" else codes "false"
  encode (int n) = format_int n
  encode (float x) = x.text
  encode (string s) = quote s
  encode (list vs) = b'[' ∷ (encode_values 0 vs ++ b']' ∷ [])
  encode (object fs) = b'{' ∷ (encode_fields 0 fs ++ b'}' ∷ [])

  pub encode_values : ℕ → Values → GoString
  encode_values i nil = []
  encode_values i (cons v vs) = separator i ++ (encode v ++ encode_values (suc i) vs)

  pub encode_fields : ℕ → Fields → GoString
  encode_fields i end = []
  encode_fields i (field k v fs) =
      separator i ++ (quote k ++ b':' ∷ (encode v ++ encode_fields (suc i) fs))

-- How deep lists and objects are nested, where the elements of an outermost list have depth 1.
unfoldable mutual
  pub depth : Value → ℕ
  depth unset = 0
  depth null = 0
  depth (bool b) = 0
  depth (int n) = 0
  depth (float x) = 0
  depth (string s) = 0
  depth (list vs) = depth_values vs
  depth (object fs) = depth_fields fs

  pub depth_values : Values → ℕ
  depth_values nil = 0
  depth_values (cons v vs) = max (suc (depth v)) (depth_values vs)

  pub depth_fields : Fields → ℕ
  depth_fields end = 0
  depth_fields (field k v fs) = max (suc (depth v)) (depth_fields fs)

-- The elements and fields at every level.
unfoldable mutual
  pub count : Value → ℕ
  count unset = 0
  count null = 0
  count (bool b) = 0
  count (int n) = 0
  count (float x) = 0
  count (string s) = 0
  count (list vs) = count_values vs
  count (object fs) = count_fields fs

  pub count_values : Values → ℕ
  count_values nil = 0
  count_values (cons v vs) = suc (count v + count_values vs)

  pub count_fields : Fields → ℕ
  count_fields end = 0
  count_fields (field k v fs) = suc (count v + count_fields fs)

-- No value is the zero `Value`; numbers are finite; the keys of an object are not empty and differ from one another.
unfoldable mutual
  pub IsWellFormed : Value → Type 0
  IsWellFormed unset = ⊥
  IsWellFormed null = Unit
  IsWellFormed (bool b) = Unit
  IsWellFormed (int n) = Unit
  IsWellFormed (float x) = x.finite ≡ true
  IsWellFormed (string s) = Unit
  IsWellFormed (list vs) = AreWellFormed vs
  IsWellFormed (object fs) = AreKeyed [] fs

  pub AreWellFormed : Values → Type 0
  AreWellFormed nil = Unit
  AreWellFormed (cons v vs) = IsWellFormed v × AreWellFormed vs

  -- The keys also differ from those given.
  pub AreKeyed : List GoString → Fields → Type 0
  AreKeyed seen end = Unit
  AreKeyed seen (field k v fs) =
      (k ≢ []) × All (λ j. k ≢ j) seen × IsWellFormed v × AreKeyed (k ∷ seen) fs
