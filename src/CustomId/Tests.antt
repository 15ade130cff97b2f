-- ===== src/CustomId/Tests.antt =====
-- Tests of the custom id codec, and the theorems at concrete inputs.
use go_mamacord.Base.{
  ◌+◌, ◌≤◌, ◌≡◌, refl, ◌↔◌, true, none, some, length, GoString, codes, trim_space, byte_len,
  split_on, has_rune, trim_prefix,
}
use go_mamacord.Manifest.Ids.{valid_id, valid_local_id}
use go_mamacord.CustomId.{built, refused, invalid, join_ids, build, parse}
use go_mamacord.CustomId.RoundTrip.{build_iff, parse-build, build-parse}

abbrev fun_roll : GoString
fun_roll = codes "mamacord:pl:fun:roll_1"

build_fun : build (codes "fun") (codes "roll_1") ≡ built fun_roll
unfolding build valid_id valid_local_id trim_space has_rune byte_len
build_fun = refl

build_upper : build (codes "Fun") (codes "roll_1") ≡ refused invalid
unfolding build valid_id valid_local_id trim_space has_rune byte_len
build_upper = refl

parse_fun : parse fun_roll ≡ some (codes "fun", codes "roll_1")
unfolding parse valid_id valid_local_id trim_space has_rune byte_len split_on trim_prefix
parse_fun = refl

parse_three : parse (codes "mamacord:pl:fun:a:b") ≡ none
unfolding parse valid_id valid_local_id trim_space has_rune byte_len split_on trim_prefix
parse_three = refl

-- The parts are trimmed before they are tested, so a text that `build` does not make is parsed too.
parse_spaced : parse (codes "mamacord:pl: fun : roll_1") ≡ some (codes "fun", codes "roll_1")
unfolding parse valid_id valid_local_id trim_space has_rune byte_len split_on trim_prefix
parse_spaced = refl

build_iff_example : (build (codes "fun") (codes "roll_1") ≡ built fun_roll) ↔ (
    (valid_id (codes "fun") ≡ true)
    × (valid_local_id (codes "roll_1") ≡ true)
    × (13 + length (codes "fun") + length (codes "roll_1") ≤ 100)
    × (fun_roll ≡ join_ids (codes "fun") (codes "roll_1")))
build_iff_example = build_iff (codes "fun") (codes "roll_1") fun_roll

parse-build_example : parse fun_roll ≡ some (codes "fun", codes "roll_1")
parse-build_example = parse-build (codes "fun") (codes "roll_1") fun_roll build_fun

build-parse_example : build (codes "fun") (codes "roll_1") ≡ built fun_roll
build-parse_example =
    build-parse (codes "mamacord:pl: fun : roll_1") (codes "fun") (codes "roll_1") parse_spaced
