-- ===== src/Contract/Patterns.antt =====
-- definition.go: `routeIDPattern` and `slashNamePattern`.
use go_mamacord.Base.{
  ℕ, Bool, true, false, not, ◌&&◌, ◌||◌, [], ◌∷◌, leb, ◌==◌, if◌then◌else◌, all, length, is_nil,
  GoString, str_eq, trim_space,
}
use go_mamacord.Manifest.Ids.{is_lower, is_digit, is_local_char}

-- Where a text stands in `[a-z][a-z0-9]*(?::[a-z0-9][a-z0-9_.-]*)+`: before its first character, in its
-- first word, behind a colon, in a later word, or outside the pattern.
pub data RouteState : Type 0 where
  start first_word behind_colon later_word outside : RouteState

abbrev is_word_char : ℕ → Bool
is_word_char c = is_lower c || is_digit c

abbrev pub next_state : RouteState → ℕ → RouteState
next_state start c = if is_lower c then first_word else outside
next_state first_word c =
    if c == b':' then behind_colon else if is_word_char c then first_word else outside
next_state behind_colon c = if is_word_char c then later_word else outside
next_state later_word c =
    if c == b':' then behind_colon else if is_local_char c then later_word else outside
next_state outside c = outside

unfoldable pub read_route : RouteState → GoString → RouteState
unfolding is_lower is_digit is_local_char
read_route s [] = s
read_route s (c ∷ text) = read_route (next_state s c) text

abbrev pub is_accepting : RouteState → Bool
is_accepting later_word = true
is_accepting _ = false

unfoldable pub valid_route : GoString → Bool
unfolding read_route
valid_route text = is_accepting (read_route start text)

-- `raw != strings.TrimSpace(raw) || !routeIDPattern.MatchString(raw)`, negated.
abbrev pub is_canonical_route : GoString → Bool
is_canonical_route text = str_eq text (trim_space text) && valid_route text

-- `[a-z0-9_-]`
unfoldable pub is_slash_char : ℕ → Bool
unfolding is_lower is_digit
is_slash_char c = is_lower c || is_digit c || c == b'_' || c == b'-'

unfoldable pub valid_slash_name : GoString → Bool
unfolding is_slash_char
valid_slash_name s = not (is_nil s) && (all is_slash_char s && leb (length s) 32)
