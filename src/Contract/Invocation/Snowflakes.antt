-- ===== src/Contract/Invocation/Snowflakes.antt =====
-- The texts of Discord ids that validateSnowflake accepts (domain.go).
use go_mamacord.Base.{
  ℕ, zero, suc, ◌+◌, ◌-◌, ◌*◌, ◌/◌, ◌%◌, ◌^◌, ◌≤◌, ◌<◌, ◌≡◌, refl, sym, ap, Bool, true, false, ◌||◌,
  Option, none, some, [], ◌∷◌, ◌++◌, arith, ltb, ltb→lt, ◌==◌, ◌↔◌, is_nil, GoString, has_prefix,
  inl, inr, Bool-cases,
}
use native.Mathlib.Nat.{pow-suc}
use mathlib.Core.List.{append-nil, append_assoc}
use go_mamacord.Manifest.Ids.{is_digit}
use go_mamacord.Contract.Value.{decimal, int_fuel}
use go_mamacord.Contract.Verdict.{valid}
use go_mamacord.Contract.Invocation.{parse_digits, parse_uint, is_positive_id, validate_snowflake}

abbrev then_digit : Option ℕ → ℕ → Option ℕ
then_digit none c = none
then_digit (some m) c = parse_digits m (c ∷ [])

parse_digits-append :
    (acc : ℕ) (s : GoString) (c : ℕ)
    → parse_digits acc (s ++ (c ∷ [])) ≡ then_digit (parse_digits acc s) c
unfolding parse_digits
parse_digits-append acc [] c = refl
parse_digits-append acc (d ∷ s) c =
    let rest = parse_digits-append (acc * 10 + (d - b'0')) s c in ground (arith, rest)

parse_digit :
    (m d : ℕ) → d < 10 → m * 10 + d < 2 ^ 64 → parse_digits m ((d + b'0') ∷ []) ≡ some (m * 10 + d)
unfolding parse_digits is_digit
parse_digit m d h k = ground (arith, h, k)

parse_digit_as :
    (m d n : ℕ) → d < 10 → m * 10 + d ≡ n → n < 2 ^ 64 → parse_digits m ((d + b'0') ∷ []) ≡ some n
parse_digit_as m d n h e k = rw (sym e) (parse_digit m d h (omega (arith, e, k)))

parse_digits-decimal :
    (fuel n : ℕ) → 0 < fuel → n < 10 ^ fuel → n < 2 ^ 64 → parse_digits 0 (decimal fuel n) ≡ some n
unfolding decimal
parse_digits-decimal zero n p h k = absurd (omega (arith, p))
parse_digits-decimal (suc zero) n p h k =
    let small : ltb n 10 ≡ true = ground (arith, h) in
    rw small (parse_digit_as 0 n n (omega (arith, h)) (omega arith) k)
parse_digits-decimal (suc (suc f)) n p h k = elim (Bool-cases (ltb n 10)) [
  | inl small ↦ rw small (parse_digit_as 0 n n (ltb→lt n 10 small) (omega arith) k)
  | inr large ↦
      let front =
        parse_digits-decimal (suc f) (n / 10) (omega arith) (omega (arith, h, pow-suc 10 (suc f)))
          (omega (arith, k)) in
      rw (large, parse_digits-append 0 (decimal (suc f) (n / 10)) (n % 10 + b'0'), front)
        (parse_digit_as (n / 10) (n % 10) n (omega arith) (omega arith) k)
]

decimal_small : (f n : ℕ) → n < 10 → decimal (suc f) n ≡ (n + b'0') ∷ []
unfolding decimal
decimal_small f n h = let small : ltb n 10 ≡ true = ground (arith, h) in rw small refl

decimal_large :
    (f m d : ℕ) → 0 < m → d < 10 → decimal (suc f) (m * 10 + d) ≡ decimal f m ++ ((d + b'0') ∷ [])
unfolding decimal
decimal_large f m d p h =
    let large : ltb (m * 10 + d) 10 ≡ false = ground (arith, p) in
    let front : (m * 10 + d) / 10 ≡ m = omega (arith, h) in
    let last : (m * 10 + d) % 10 ≡ d = omega (arith, h) in rw (large, front, last) refl

-- More fuel changes nothing once there is enough of it.
decimal_more : (f n : ℕ) → 0 < f → n < 10 ^ f → decimal (suc f) n ≡ decimal f n
unfolding decimal
decimal_more zero n p h = absurd (omega (arith, p))
decimal_more (suc zero) n p h = let small : ltb n 10 ≡ true = ground (arith, h) in rw small refl
decimal_more (suc (suc f)) n p h = elim (Bool-cases (ltb n 10)) [
  | inl small ↦ rw small refl
  | inr large ↦
      let front =
        decimal_more (suc f) (n / 10) (omega arith) (omega (arith, h, pow-suc 10 (suc f))) in
      rw large (ap (λ s. s ++ (n % 10 + b'0') ∷ []) front)
]

decimal_next :
    (m d : ℕ)
    → 0 < m
    → d < 10
    → m * 10 + d < 2 ^ 64
    → decimal 20 (m * 10 + d) ≡ decimal 20 m ++ ((d + b'0') ∷ [])
decimal_next m d p h k =
    rw (decimal_large 19 m d p h, decimal_more 19 m (omega arith) (omega (arith, k))) refl

digit_step :
    (acc c : ℕ) (s : GoString) (n : ℕ)
    → parse_digits acc (c ∷ s) ≡ some n
    → (d : ℕ) × (c ≡ d + b'0')
      × (d < 10)
      × (acc * 10 + d < 2 ^ 64)
      × (parse_digits (acc * 10 + d) s ≡ some n)
unfolding parse_digits is_digit
digit_step acc c s n h =
    (c - b'0', ground (arith, h), ground (arith, h), ground (arith, h), ground (arith, h))

parse_digits-inv :
    (acc : ℕ) (s : GoString) (n : ℕ)
    → 0 < acc
    → acc < 2 ^ 64
    → parse_digits acc s ≡ some n
    → (0 < n) × (n < 2 ^ 64) × (decimal 20 n ≡ decimal 20 acc ++ s)
unfolding parse_digits
parse_digits-inv acc [] n p k h =
    let same : n ≡ acc = cc in rw (same, append-nil (decimal 20 acc)) (p, k, refl)
parse_digits-inv acc (c ∷ s) n p k h =
    let (d, is_d, small, fits, rest) = digit_step acc c s n h in
    let (pos_n, fits_n, text) = parse_digits-inv (acc * 10 + d) s n (omega (arith, p)) fits rest in
    (
      pos_n,
      fits_n,
      rw
          (
            text,
            decimal_next acc d p small fits,
            is_d,
            append_assoc (decimal 20 acc) ((d + b'0') ∷ []) s,
          )
          refl,
    )

-- No text, or a text that starts with 0.
abbrev is_refused : GoString → Bool
is_refused s = is_nil s || has_prefix s (b'0' ∷ [])

is_refused-append : (s t : GoString) → is_refused s ≡ false → is_refused (s ++ t) ≡ false
unfolding has_prefix
is_refused-append [] t h = cc
is_refused-append (c ∷ s) t h = h

is_refused-decimal : (f n : ℕ) → 0 < n → n < 10 ^ suc f → is_refused (decimal (suc f) n) ≡ false
unfolding decimal has_prefix
is_refused-decimal zero n p h =
    let small : ltb n 10 ≡ true = ground (arith, h) in rw small (ground (arith, p))
is_refused-decimal (suc f) n p h = elim (Bool-cases (ltb n 10)) [
  | inl small ↦ rw small (ground (arith, p))
  | inr large ↦
      let front =
        is_refused-decimal f (n / 10) (let le : 10 ≤ n = ground (arith, large) in omega (arith, le))
          (omega (arith, h, pow-suc 10 (suc f))) in
      rw large (is_refused-append (decimal (suc f) (n / 10)) ((n % 10 + b'0') ∷ []) front)
]

parse_uint_text : (s : GoString) → is_refused s ≡ false → parse_uint s ≡ parse_digits 0 s
unfolding parse_uint
parse_uint_text [] h = cc
parse_uint_text (c ∷ s) h = refl

snowflake_text :
    (s : GoString) (n : ℕ)
    → is_refused s ≡ false
    → parse_digits 0 s ≡ some n
    → 0 < n
    → validate_snowflake s ≡ valid
unfolding validate_snowflake
snowflake_text s n start e p =
    let positive : ltb 0 n ≡ true = ground (arith, p) in
    rw (start, parse_uint_text s start, e, positive) refl

validate_snowflake-decimal :
    (n : ℕ) → 0 < n → n < 2 ^ 64 → validate_snowflake (decimal int_fuel n) ≡ valid
validate_snowflake-decimal n p k =
    snowflake_text (decimal int_fuel n) n (is_refused-decimal 19 n p (omega (arith, k)))
      (parse_digits-decimal 20 n (omega arith) (omega (arith, k)) k) p

abbrev IsCanonical : GoString → Type 0
IsCanonical s = (n : ℕ) × (0 < n) × (n < 2 ^ 64) × (s ≡ decimal int_fuel n)

digits-IsCanonical :
    (c : ℕ) (s : GoString) (r : Option ℕ)
    → (c == b'0') ≡ false
    → parse_digits 0 (c ∷ s) ≡ r
    → is_positive_id r ≡ true
    → IsCanonical (c ∷ s)
digits-IsCanonical c s none z e h = cc
digits-IsCanonical c s (some n) z e h =
    let (d, is_d, small, fits, rest) = digit_step 0 c s n e in
    let zero_step : 0 * 10 + d ≡ d = omega arith in
    let positive : 0 < d = ground (arith, z, is_d) in
    let (pos_n, fits_n, text) =
      parse_digits-inv d s n positive (omega (arith, small)) (rw zero_step at rest) in
    (n, pos_n, fits_n, rw (text, decimal_small 19 d small, is_d) refl)

validate_snowflake-inv : (s : GoString) → validate_snowflake s ≡ valid → IsCanonical s
unfolding validate_snowflake parse_uint has_prefix
validate_snowflake-inv [] h = cc
validate_snowflake-inv (c ∷ s) h =
    digits-IsCanonical c s (parse_digits 0 (c ∷ s)) (ground arith) refl (ground arith)

-- An id is accepted exactly when it is the decimal text, without leading zeros, of a positive number
-- below 2 ^ 64.
pub validate_snowflake_iff :
    (s : GoString)
    → (validate_snowflake s ≡ valid) ↔ ((n : ℕ) × (0 < n) × (n < 2 ^ 64) × (s ≡ decimal int_fuel n))
validate_snowflake_iff s =
    (validate_snowflake-inv s, λ c. rw c.3 (validate_snowflake-decimal c.0 c.1 c.2))
