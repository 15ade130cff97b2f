-- ===== src/Cooldown/Policy/Refinement.antt =====
-- The cooldown of a command, by the lists that the policy was made from (policy.go). The specification
-- has no maps, no first test that all is empty, and no test that the root differs from the name.
use go_mamacord.Base.{
  ℕ, ◌≡◌, Bool, true, not, ◌||◌, ◌&&◌, Option, none, some, List, [], ◌∷◌, any, if◌then◌else◌,
  is_nil, GoString, str_eq, ℤ, pos, ◌⊎◌, ◌++◌, ◌==◌, all,
}
use go_mamacord.Cooldown.Policy.{Policy, normal, or_default, positive_or_zero}

-- The entry, trimmed and in lower case, is the name, which is not blank.
abbrev pub names : (ℕ → ℕ) → GoString → GoString → Bool
names fold name entry = not (is_nil name) && str_eq (normal fold entry) name

-- The duration of the last entry for the name.
unfoldable pub last_for : (ℕ → ℕ) → GoString → List (GoString × ℤ) → Option ℤ
last_for fold name [] = none
last_for fold name ((entry, d) ∷ more) = elim (last_for fold name more) [
  | some later ↦ some later
  | none ↦ if names fold name entry then some d else none
]

-- What a command with the normalised name and root has to wait: nothing without a name or if its root
-- is listed for bypass; else the override for the name, else that for the root, else the general
-- cooldown, if that is positive.
abbrev pub listed_cooldown :
    (ℕ → ℕ) → ℤ → List GoString → List (GoString × ℤ) → GoString → GoString → ℤ
listed_cooldown fold slash bypass overrides name root =
    if is_nil name || any (names fold root) bypass
    then pos 0
    else or_default (last_for fold name overrides)
        (or_default (last_for fold root overrides) (positive_or_zero slash))

abbrev or_else : Option ℤ → Option ℤ → Option ℤ
or_else none o = o
or_else (some d) o = some d

-- The root of a name is what stands before its first colon, or all of it.
abbrev pub IsRoot : GoString → GoString → Type 0
IsRoot root name =
    (all (λ c. not (c == b':')) root ≡ true)
    × ((name ≡ root) ⊎ ((rest : GoString) × (name ≡ root ++ (b':' ∷ rest))))
