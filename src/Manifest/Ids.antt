-- ===== src/Manifest/Ids.antt =====
-- The identifier patterns: `manifestIDPattern` and `ValidID` of
-- internal/runtime/plugins/manifest/document.go and `customLocalIDPattern` of
-- internal/runtime/plugins/customid/codec.go. A pattern `^[first][tail]{0,63}$` is a test of the
-- first character, of the others, and of their number.
use go_mamacord.Base.{
  ℕ, ◌≡◌, refl, Bool, true, false, ◌&&◌, ◌||◌, [], ◌∷◌, arith, leb, ◌==◌, length, all, All,
  All-of_all, and-true, GoString, is_space, NoSpace, has_rune, is_nil, rune_len, byte_len,
}

unfoldable pub is_lower : ℕ → Bool
is_lower c = leb b'a' c && leb c b'z'

unfoldable pub is_digit : ℕ → Bool
is_digit c = leb b'0' c && leb c b'9'

-- `[a-z0-9-]`
unfoldable pub is_id_char : ℕ → Bool
unfolding is_lower is_digit
is_id_char c = is_lower c || is_digit c || c == b'-'

-- `[a-z0-9_.-]`
unfoldable pub is_local_char : ℕ → Bool
unfolding is_lower is_digit
is_local_char c = is_lower c || is_digit c || c == b'_' || c == b'.' || c == b'-'

unfoldable pub valid_id : GoString → Bool
unfolding is_id_char
valid_id [] = false
valid_id (c ∷ s) = is_lower c && (all is_id_char s && leb (length s) 63)

unfoldable pub valid_local_id : GoString → Bool
unfolding is_local_char
valid_local_id [] = false
valid_local_id (c ∷ s) = is_lower c && (all is_local_char s && leb (length s) 63)

-- What both patterns give for each character: it is ASCII, no space and no colon.
abbrev pub IsPlain : ℕ → Type 0
IsPlain c = (is_space c ≡ false) × ((c == b':') ≡ false) × (rune_len c ≡ 1)

is_local_char-IsPlain : (c : ℕ) → is_local_char c ≡ true → IsPlain c
unfolding is_local_char is_space
is_local_char-IsPlain c h = ground arith

is_lower-local : (c : ℕ) → is_lower c ≡ true → is_local_char c ≡ true
unfolding is_local_char
is_lower-local c h = ground arith

is_id_char-local : (c : ℕ) → is_id_char c ≡ true → is_local_char c ≡ true
unfolding is_id_char is_local_char
is_id_char-local c h = ground arith

pub valid_id-IsPlain : (s : GoString) → valid_id s ≡ true → All IsPlain s
unfolding valid_id
valid_id-IsPlain [] h = tt
valid_id-IsPlain (c ∷ s) h =
    let parts = and-true (is_lower c) (all is_id_char s && leb (length s) 63) h in
    let tails = and-true (all is_id_char s) (leb (length s) 63) parts.1 in
    (
      is_local_char-IsPlain c (is_lower-local c parts.0),
      All-of_all IsPlain is_id_char s (λ d k. is_local_char-IsPlain d (is_id_char-local d k))
          tails.0,
    )

pub valid_local_id-IsPlain : (s : GoString) → valid_local_id s ≡ true → All IsPlain s
unfolding valid_local_id
valid_local_id-IsPlain [] h = tt
valid_local_id-IsPlain (c ∷ s) h =
    let parts = and-true (is_lower c) (all is_local_char s && leb (length s) 63) h in
    let tails = and-true (all is_local_char s) (leb (length s) 63) parts.1 in
    (
      is_local_char-IsPlain c (is_lower-local c parts.0),
      All-of_all IsPlain is_local_char s (λ d k. is_local_char-IsPlain d k) tails.0,
    )

pub valid_id-is_nil : (s : GoString) → valid_id s ≡ true → is_nil s ≡ false
unfolding valid_id
valid_id-is_nil [] h = cc
valid_id-is_nil (c ∷ s) h = refl

pub valid_local_id-is_nil : (s : GoString) → valid_local_id s ≡ true → is_nil s ≡ false
unfolding valid_local_id
valid_local_id-is_nil [] h = cc
valid_local_id-is_nil (c ∷ s) h = refl

pub IsPlain-NoSpace : (s : GoString) → All IsPlain s → NoSpace s
IsPlain-NoSpace [] h = tt
IsPlain-NoSpace (c ∷ s) h = (h.0.0, IsPlain-NoSpace s h.1)

pub IsPlain-no_colon : (s : GoString) → All IsPlain s → has_rune b':' s ≡ false
unfolding has_rune
IsPlain-no_colon [] h = refl
IsPlain-no_colon (c ∷ s) h = ground (arith, IsPlain-no_colon s h.1)

pub IsPlain-byte_len : (s : GoString) → All IsPlain s → byte_len s ≡ length s
unfolding byte_len
IsPlain-byte_len [] h = refl
IsPlain-byte_len (c ∷ s) h = omega (arith, IsPlain-byte_len s h.1, h.0.2)
