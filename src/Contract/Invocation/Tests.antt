-- ===== src/Contract/Invocation/Tests.antt =====
-- Tests of ids and keys, and the theorem on ids at a concrete input.
use go_mamacord.Base.{ℕ, ◌<◌, ◌^◌, ◌≡◌, refl, ◌↔◌, true, false, codes}
use go_mamacord.Contract.Value.{decimal, int_fuel}
use go_mamacord.Contract.Verdict.{valid, invalid}
use go_mamacord.Contract.Invocation.{validate_snowflake, parse_uint, parse_digits, valid_kv_key}
use go_mamacord.Contract.Invocation.Snowflakes.{validate_snowflake_iff}

largest_id : validate_snowflake (codes "18446744073709551615") ≡ valid
unfolding validate_snowflake parse_uint parse_digits
largest_id = refl

overflowing_id : validate_snowflake (codes "18446744073709551616") ≡ invalid "id is invalid"
unfolding validate_snowflake parse_uint parse_digits
overflowing_id = refl

padded_id : validate_snowflake (codes "041") ≡ invalid "id is invalid"
unfolding validate_snowflake parse_uint parse_digits
padded_id = refl

plain_key : valid_kv_key (codes "a/b:1") ≡ true
unfolding valid_kv_key
plain_key = refl

dashed_key : valid_kv_key (codes "-a") ≡ false
unfolding valid_kv_key
dashed_key = refl

validate_snowflake_iff_example :
    (validate_snowflake (codes "41") ≡ valid)
    ↔ ((n : ℕ) × (0 < n) × (n < 2 ^ 64) × (codes "41" ≡ decimal int_fuel n))
validate_snowflake_iff_example = validate_snowflake_iff (codes "41")
