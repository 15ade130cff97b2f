-- ===== src/Cooldown/Policy.antt =====
-- policy.go: how long the cooldown of a command, a component or a modal is. `fold` is the part of
-- unicode.ToLower above ASCII. A Go map is ranged over in no fixed order: `overrides` is the list in
-- the order that the loop meets, in which a later entry of one normalised key replaces an earlier one.
pub mod Laws
pub mod Refinement
use go_mamacord.Base.{
  ℕ, ◌+◌, ◌*◌, ◌-◌, ◌/◌, ◌%◌, ◌^◌, max, Bool, true, false, not, ◌||◌, ◌&&◌, Option, none, some,
  List, [], ◌∷◌, ltb, leb, ◌==◌, if◌then◌else◌, is_nil, GoString, str_eq, to_lower, trim_space, Map,
  lookup, insert, ℤ, pos, negsuc, is_positive,
}

pub record Policy : Type 0 where
  pub slash_cooldown : ℤ
  pub component_cooldown : ℤ
  pub modal_cooldown : ℤ
  pub slash_bypass : Map (Unit {0})
  pub slash_cooldown_overrides : Map ℤ

abbrev pub normal : (ℕ → ℕ) → GoString → GoString
normal fold name = to_lower fold (trim_space name)

unfoldable pub add_bypass : (ℕ → ℕ) → List GoString → Map (Unit {0}) → Map (Unit {0})
add_bypass fold [] m = m
add_bypass fold (name ∷ names) m =
    add_bypass fold names (if is_nil (normal fold name) then m else insert (normal fold name) tt m)

unfoldable pub add_overrides : (ℕ → ℕ) → List (GoString × ℤ) → Map ℤ → Map ℤ
add_overrides fold [] m = m
add_overrides fold ((key, d) ∷ more) m =
    add_overrides fold more (if is_nil (normal fold key) then m else insert (normal fold key) d m)

unfoldable pub new_policy : (ℕ → ℕ) → ℤ → ℤ → ℤ → List GoString → List (GoString × ℤ) → Policy
unfolding add_bypass add_overrides
new_policy fold slash component modal bypass overrides = record {
  slash_cooldown = slash;
  component_cooldown = component;
  modal_cooldown = modal;
  slash_bypass = add_bypass fold bypass [];
  slash_cooldown_overrides = add_overrides fold overrides [];
}

-- The text before the first colon, all of it if there is none.
unfoldable pub root_of : GoString → GoString
root_of [] = []
root_of (c ∷ s) = let rest = root_of s in if c == b':' then [] else c ∷ rest

abbrev pub is_some {ℓ} : {A : Type ℓ} → Option A → Bool
is_some none = false
is_some (some a) = true

abbrev pub or_default : Option ℤ → ℤ → ℤ
or_default none d = d
or_default (some e) d = e

-- `if d <= 0 { return 0 }; return d`
abbrev pub positive_or_zero : ℤ → ℤ
positive_or_zero d = if is_positive d then d else pos 0

-- The tests of `CommandCooldown`, at the normalised name and its root.
unfoldable pub keyed_cooldown : Policy → GoString → GoString → ℤ
keyed_cooldown policy key root =
    let by_key = lookup key policy.slash_cooldown_overrides in
    let by_root = lookup root policy.slash_cooldown_overrides in
    if not (is_positive policy.slash_cooldown)
      && is_nil policy.slash_bypass
      && is_nil policy.slash_cooldown_overrides
    then pos 0
    else if is_nil key
    then pos 0
    else if is_some (lookup root policy.slash_bypass)
    then pos 0
    else if is_some by_key
    then or_default by_key (pos 0)
    else if not (str_eq root key) && is_some by_root
    then or_default by_root (pos 0)
    else positive_or_zero policy.slash_cooldown

unfoldable pub command_cooldown : (ℕ → ℕ) → Policy → GoString → ℤ
unfolding keyed_cooldown root_of
command_cooldown fold policy name =
    keyed_cooldown policy (normal fold name) (root_of (normal fold name))

unfoldable pub component_cooldown_of : Policy → GoString → ℤ
component_cooldown_of policy _ = positive_or_zero policy.component_cooldown

unfoldable pub modal_cooldown_of : Policy → GoString → ℤ
modal_cooldown_of policy _ = positive_or_zero policy.modal_cooldown

abbrev pub second : ℕ
second = 1000000000

-- `Round(time.Second)` takes halves away from zero, and a result past the longest duration becomes
-- the longest duration, which has as many whole seconds as before rounding.
unfoldable pub cooldown_seconds : ℤ → ℕ
cooldown_seconds (negsuc n) = 1
cooldown_seconds (pos n) =
    let up = n / second + 1 in
    max 1 (
      if ltb (n % second * 2) second
      then n / second
      else if leb (up * second) (2 ^ 63 - 1)
      then up
      else n / second)
