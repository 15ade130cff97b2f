-- ===== src/Base/Text.antt =====
-- Go strings: the list of the code points of a valid UTF-8 string, with the functions of the
-- packages strings and unicode/utf8 that the program uses.
use Prim.Native.Char.{code}
use Prim.Native.Nat.{ℕ, ◌+◌, ◌≤◌}
use Prim.Native.String.{String}
use mathlib.Core.Path.{◌≡◌, refl, ap}
use mathlib.Core.Logic.{◌↔◌}
use mathlib.Core.Bool.{Bool, true, false, ◌&&◌, ◌||◌}
use mathlib.Core.List.{List, [], ◌∷◌, ◌++◌, reverse, reverse-cons, reverse-reverse}
use native.Mathlib.Omega.{arith}
use go_mamacord.Base.Tests.{leb, ltb, ◌==◌, if◌then◌else◌}
use go_mamacord.Base.Lists.{All, All-reverse}

abbrev pub GoString : Type 0
GoString = List ℕ

-- The code points of a literal. `String` has its own `[]` and `∷`.
abbrev pub codes : String → GoString
codes String.[] = []
codes (String.◌∷◌ c s) = code c ∷ codes s

abbrev pub str_eq : GoString → GoString → Bool
str_eq [] [] = true
str_eq [] (d ∷ t) = false
str_eq (c ∷ s) [] = false
str_eq (c ∷ s) (d ∷ t) = (c == d) && str_eq s t

pub str_eq→eq : (s t : GoString) → str_eq s t ≡ true → s ≡ t
str_eq→eq [] [] h = refl
str_eq→eq [] (d ∷ t) h = cc
str_eq→eq (c ∷ s) [] h = cc
str_eq→eq (c ∷ s) (d ∷ t) h = ground (arith, str_eq→eq s t)

pub str_eq_refl : (s : GoString) → str_eq s s ≡ true
str_eq_refl [] = refl
str_eq_refl (c ∷ s) = ground (arith, str_eq_refl s)

pub str_eq_iff : (s t : GoString) → (str_eq s t ≡ true) ↔ (s ≡ t)
str_eq_iff s t = (str_eq→eq s t, λ e. ground (arith, str_eq_refl s))

-- The bytes of a code point in UTF-8, and `len` of a Go string.
abbrev pub rune_len : ℕ → ℕ
rune_len c = if ltb c 0x80 then 1 else if ltb c 0x800 then 2 else if ltb c 0x10000 then 3 else 4

unfoldable pub byte_len : GoString → ℕ
byte_len [] = 0
byte_len (c ∷ s) = rune_len c + byte_len s

pub byte_len-append : (s t : GoString) → byte_len (s ++ t) ≡ byte_len s + byte_len t
unfolding byte_len
byte_len-append [] t = omega arith
byte_len-append (c ∷ s) t = omega (arith, byte_len-append s t)

-- unicode.IsSpace
unfoldable pub is_space : ℕ → Bool
is_space c =
    (leb 9 c && leb c 13)
    || c == 32
    || c == 0x85
    || c == 0xa0
    || c == 0x1680
    || (leb 0x2000 c && leb c 0x200a)
    || c == 0x2028
    || c == 0x2029
    || c == 0x202f
    || c == 0x205f
    || c == 0x3000

unfoldable pub trim_left : GoString → GoString
trim_left [] = []
trim_left (c ∷ s) = if is_space c then trim_left s else c ∷ s

-- strings.TrimSpace
unfoldable pub trim_space : GoString → GoString
unfolding trim_left is_space
trim_space s = reverse (trim_left (reverse (trim_left s)))

-- A string with no space in it is not changed by TrimSpace.
abbrev pub NoSpace : GoString → Type 0
NoSpace = All (λ c. is_space c ≡ false)

pub trim_left_of_NoSpace : (s : GoString) → NoSpace s → trim_left s ≡ s
unfolding trim_left
trim_left_of_NoSpace [] h = refl
trim_left_of_NoSpace (c ∷ s) h = rw h.0

pub trim_space_of_NoSpace : (s : GoString) → NoSpace s → trim_space s ≡ s
unfolding trim_space
trim_space_of_NoSpace s h =
    rw
      (
        trim_left_of_NoSpace s h,
        trim_left_of_NoSpace (reverse s) (All-reverse (λ c. is_space c ≡ false) s h),
      )
      (reverse-reverse s)

byte_len-trim_left-le : (s : GoString) → byte_len (trim_left s) ≤ byte_len s
unfolding byte_len trim_left
byte_len-trim_left-le [] = omega arith
byte_len-trim_left-le (c ∷ s) = ground (arith, byte_len-trim_left-le s)

byte_len-reverse : (s : GoString) → byte_len (reverse s) ≡ byte_len s
unfolding byte_len
byte_len-reverse [] = refl
byte_len-reverse (c ∷ s) = omega (
  arith,
  ap byte_len (reverse-cons c s),
  byte_len-append (reverse s) (c ∷ []),
  byte_len-reverse s,
)

pub byte_len-trim_space-le : (s : GoString) → byte_len (trim_space s) ≤ byte_len s
unfolding trim_space
byte_len-trim_space-le s = omega (
  arith,
  byte_len-reverse (trim_left (reverse (trim_left s))),
  byte_len-trim_left-le (reverse (trim_left s)),
  byte_len-reverse (trim_left s),
  byte_len-trim_left-le s,
)

-- strings.HasPrefix and strings.TrimPrefix
unfoldable pub has_prefix : GoString → GoString → Bool
has_prefix s [] = true
has_prefix [] (d ∷ p) = false
has_prefix (c ∷ s) (d ∷ p) = (c == d) && has_prefix s p

unfoldable pub drop_prefix : GoString → GoString → GoString
drop_prefix s [] = s
drop_prefix [] (d ∷ p) = []
drop_prefix (c ∷ s) (d ∷ p) = drop_prefix s p

unfoldable pub trim_prefix : GoString → GoString → GoString
unfolding has_prefix drop_prefix
trim_prefix s p = if has_prefix s p then drop_prefix s p else s

pub has_prefix-append : (p s : GoString) → has_prefix (p ++ s) p ≡ true
unfolding has_prefix
has_prefix-append [] s = refl
has_prefix-append (c ∷ p) s = ground (arith, has_prefix-append p s)

pub drop_prefix-append : (p s : GoString) → drop_prefix (p ++ s) p ≡ s
unfolding drop_prefix
drop_prefix-append [] s = refl
drop_prefix-append (c ∷ p) s = drop_prefix-append p s

pub has_prefix_elim : (s p : GoString) → has_prefix s p ≡ true → s ≡ p ++ drop_prefix s p
unfolding has_prefix drop_prefix
has_prefix_elim s [] h = refl
has_prefix_elim [] (d ∷ p) h = cc
has_prefix_elim (c ∷ s) (d ∷ p) h = ground (arith, has_prefix_elim s p)

-- strings.Contains of one ASCII character
unfoldable pub has_rune : ℕ → GoString → Bool
has_rune k [] = false
has_rune k (c ∷ s) = c == k || has_rune k s

-- strings.Split at one ASCII character. There is always a first part.
abbrev onto_head : ℕ → List GoString → List GoString
onto_head c [] = (c ∷ []) ∷ []
onto_head c (part ∷ parts) = (c ∷ part) ∷ parts

unfoldable pub split_on : ℕ → GoString → List GoString
split_on k [] = [] ∷ []
split_on k (c ∷ s) = let parts = split_on k s in if c == k then [] ∷ parts else onto_head c parts

pub split_on-none : (k : ℕ) (s : GoString) → has_rune k s ≡ false → split_on k s ≡ s ∷ []
unfolding split_on has_rune
split_on-none k [] h = refl
split_on-none k (c ∷ s) h = ground (arith, split_on-none k s)

pub split_on-append :
    (k : ℕ) (p s : GoString) → has_rune k p ≡ false → split_on k (p ++ k ∷ s) ≡ p ∷ split_on k s
unfolding split_on has_rune
split_on-append k [] s h = ground arith
split_on-append k (c ∷ p) s h = ground (arith, split_on-append k p s)

-- The bytes of the parts, and one for each separator and one at the end.
abbrev pub parts_len : List GoString → ℕ
parts_len [] = 0
parts_len (part ∷ parts) = byte_len part + 1 + parts_len parts

pub parts_len-split_on :
    (k : ℕ) (s : GoString) → rune_len k ≡ 1 → parts_len (split_on k s) ≡ byte_len s + 1
unfolding split_on byte_len
parts_len-split_on k [] h = omega arith
parts_len-split_on k (c ∷ s) h = ground (arith, parts_len-split_on k s h)

-- strings.ToLower: `fold` stands for unicode.ToLower on the code points above ASCII, which Unicode's
-- tables decide.
unfoldable pub to_lower : (ℕ → ℕ) → GoString → GoString
to_lower fold [] = []
to_lower fold (c ∷ s) =
    (if ltb c 0x80 then (if leb b'A' c && leb c b'Z' then c + 32 else c) else fold c)
    ∷ to_lower fold s
