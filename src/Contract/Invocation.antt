-- ===== src/Contract/Invocation.antt =====
-- invocation.go and domain.go: the Discord ids, the keys of a plugin's state, and the attachments of
-- an invocation.
pub mod Snowflakes
pub mod Options
pub mod Context
pub mod Validate
mod Tests
use go_mamacord.Base.{
  ℕ, ◌+◌, ◌-◌, ◌*◌, ◌^◌, Bool, true, false, not, ◌&&◌, ◌||◌, Option, none, some, List, [], ◌∷◌, ltb,
  leb, ◌==◌, if◌then◌else◌, is_nil, length, all, any, GoString, str_eq, trim_space, has_prefix, ℤ,
}
use go_mamacord.Manifest.Ids.{is_lower, is_digit}
use go_mamacord.Contract.Refs.{GuildRef, AttachmentRef}
use go_mamacord.Contract.Inputs.{
  CommandInput, OptionKind, attachment_option, OptionValue, Invocation,
}
use go_mamacord.Contract.Verdict.{Verdict, ◌>>◌, refuse_if}

-- `strconv.ParseUint(value, 10, 64)`
unfoldable pub parse_digits : ℕ → GoString → Option ℕ
unfolding is_digit
parse_digits acc [] = some acc
parse_digits acc (c ∷ s) =
    let next = acc * 10 + (c - b'0') in
    let rest = parse_digits next s in
    if not (is_digit c) then none else if leb (2 ^ 64) next then none else rest

unfoldable pub parse_uint : GoString → Option ℕ
unfolding parse_digits
parse_uint [] = none
parse_uint (c ∷ s) = parse_digits 0 (c ∷ s)

abbrev pub is_positive_id : Option ℕ → Bool
is_positive_id none = false
is_positive_id (some n) = ltb 0 n

unfoldable pub validate_snowflake : GoString → Verdict
unfolding parse_uint has_prefix
validate_snowflake s =
    refuse_if (is_nil s || has_prefix s (b'0' ∷ [])) "id is invalid"
    >> refuse_if (not (is_positive_id (parse_uint s))) "id is invalid"

-- `[A-Za-z0-9]` and `[A-Za-z0-9._:/-]`
unfoldable pub is_alnum : ℕ → Bool
unfolding is_lower is_digit
is_alnum c = is_lower c || (leb b'A' c && leb c b'Z') || is_digit c

unfoldable pub is_key_char : ℕ → Bool
unfolding is_alnum
is_key_char c = is_alnum c || c == b'.' || c == b'_' || c == b':' || c == b'/' || c == b'-'

-- `kvKeyPattern`
unfoldable pub valid_kv_key : GoString → Bool
unfolding is_key_char
valid_kv_key [] = false
valid_kv_key (c ∷ s) = is_alnum c && (all is_key_char s && leb (length s) 127)

abbrev pub blank_guild : Option GuildRef → Bool
blank_guild none = true
blank_guild (some g) = is_nil (trim_space g.id)

unfoldable pub validate_kv_scope : Invocation → GoString → Verdict
unfolding valid_kv_key
validate_kv_scope i key =
    refuse_if (blank_guild i.guild) "guild context is required"
    >> refuse_if (not (str_eq key (trim_space key)) || not (valid_kv_key key))
        "key is not canonical"

abbrev pub is_attachment : OptionKind → Bool
is_attachment attachment_option = true
is_attachment _ = false

abbrev pub same_id : GoString → Option AttachmentRef → Bool
same_id id none = false
same_id id (some a) = str_eq a.id id

abbrev pub attaches : GoString → OptionValue → Bool
attaches id o = is_attachment o.kind && same_id id o.attachment

-- The options of the command, if the input is one.
abbrev pub command_options : Option CommandInput → List OptionValue
command_options none = []
command_options (some c) = c.options

unfoldable pub validate_attachment : Invocation → GoString → Verdict
validate_attachment i id =
    refuse_if (is_nil (trim_space id)) "attachment id is required"
    >> refuse_if (not (any (attaches id) (command_options i.command)))
        "attachment is not present in invocation"
