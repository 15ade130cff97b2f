-- ===== src/Contract/Value/Tests.antt =====
-- Tests of the validation of values, and its theorems at concrete inputs.
use go_mamacord.Base.{◌≤◌, ◌≡◌, refl, ◌↔◌, true, codes, byte_len, pos, negsuc}
use go_mamacord.Contract.Value.{
  Value, null, bool, int, list, object, nil, cons, end, field, format_int, quoted_len, sized,
  failed, duplicate_key, encoded_size, validate_state,
}
use go_mamacord.Contract.Value.Json.{encode, depth, count, IsWellFormed}
use go_mamacord.Contract.Value.Complete.{encoded_size_iff, validate_state_iff}

-- {"a":[1,-20,true],"b":null}
abbrev sample : Value
sample = object (
    field (codes "a") (list (cons (int (pos 1)) (cons (int (negsuc 19)) (cons (bool true) nil))))
      (field (codes "b") null end))

sample_size : encoded_size sample ≡ sized 27 5
unfolding encoded_size byte_len format_int quoted_len
sample_size = refl

sample_text : encode (list (cons (int (negsuc 19)) (cons null nil))) ≡ codes "[-20,null]"
unfolding encode format_int
sample_text = refl

repeated_key :
    encoded_size (object (field (codes "a") null (field (codes "a") null end)))
    ≡ failed duplicate_key
unfolding encoded_size quoted_len
repeated_key = refl

encoded_size_iff_example : (encoded_size sample ≡ sized 27 5) ↔ (
    (depth sample ≤ 16)
    × (count sample ≤ 500)
    × IsWellFormed sample
    × (27 ≡ byte_len (encode sample))
    × (5 ≡ count sample))
encoded_size_iff_example = encoded_size_iff sample 27 5

validate_state_iff_example : (validate_state sample ≡ sized 27 5) ↔ (
    (depth sample ≤ 16)
    × (count sample ≤ 500)
    × IsWellFormed sample
    × (27 ≡ byte_len (encode sample))
    × (5 ≡ count sample)
    × (27 ≤ 16384))
validate_state_iff_example = validate_state_iff sample 27 5
