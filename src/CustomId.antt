-- ===== src/CustomId.antt =====
-- internal/runtime/plugins/customid/codec.go: the custom id of a Discord component, which names the
-- plugin and the plugin's own id. Errors keep the order of the source's tests.
pub mod Laws
pub mod RoundTrip
mod Tests
use go_mamacord.Base.{
  ℕ, Bool, true, false, not, ◌&&◌, ◌||◌, Option, none, some, List, [], ◌∷◌, ◌++◌, ltb,
  if◌then◌else◌, is_nil, GoString, codes, str_eq, trim_space, byte_len, has_prefix, trim_prefix,
  has_rune, split_on,
}
use go_mamacord.Manifest.Ids.{valid_id, valid_local_id}

abbrev pub custom_id_prefix : GoString
custom_id_prefix = codes "mamacord:pl:"

abbrev pub max_custom_id_len : ℕ
max_custom_id_len = 100

pub data BuildError : Type 0 where
  invalid required colon too_long : BuildError

pub data Built : Type 0 where
  built : GoString → Built
  refused : BuildError → Built

abbrev pub join_ids : GoString → GoString → GoString
join_ids plugin_id local_id = custom_id_prefix ++ (plugin_id ++ b':' ∷ local_id)

unfoldable pub build : GoString → GoString → Built
build plugin_id local_id =
    if not (str_eq plugin_id (trim_space plugin_id))
      || not (str_eq local_id (trim_space local_id))
      || not (valid_id plugin_id)
      || not (valid_local_id local_id)
    then refused invalid
    else if is_nil plugin_id || is_nil local_id
    then refused required
    else if has_rune b':' plugin_id || has_rune b':' local_id
    then refused colon
    else if ltb max_custom_id_len (byte_len (join_ids plugin_id local_id))
    then refused too_long
    else built (join_ids plugin_id local_id)

-- The tests on the two parts of the rest, which have been trimmed.
unfoldable pub check_ids : GoString → GoString → Option (GoString × GoString)
check_ids plugin_id local_id =
    if not (valid_id plugin_id) || not (valid_local_id local_id)
    then none
    else if has_rune b':' plugin_id || has_rune b':' local_id
    then none
    else some (plugin_id, local_id)

unfoldable pub parse_parts : List GoString → Option (GoString × GoString)
unfolding check_ids
parse_parts [] = none
parse_parts (p ∷ []) = none
parse_parts (p ∷ l ∷ []) = check_ids (trim_space p) (trim_space l)
parse_parts (p ∷ l ∷ m ∷ more) = none

unfoldable pub parse : GoString → Option (GoString × GoString)
unfolding parse_parts
parse custom_id =
    if not (str_eq custom_id (trim_space custom_id)) || ltb max_custom_id_len (byte_len custom_id)
    then none
    else if not (has_prefix custom_id custom_id_prefix)
    then none
    else parse_parts (split_on b':' (trim_prefix custom_id custom_id_prefix))
