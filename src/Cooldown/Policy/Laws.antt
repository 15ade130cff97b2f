-- ===== src/Cooldown/Policy/Laws.antt =====
-- Which cooldown applies (policy.go).
use go_mamacord.Base.{
  ℕ, ◌+◌, ◌*◌, ◌^◌, ◌≤◌, ◌<◌, ◌≡◌, true, false, List, [], ◌∷◌, arith, is_nil, In, here, there,
  GoString, str_eq_iff, Map, lookup, lookup-insert, ℤ, pos, ltb, ltb→lt, Bool-cases, inl, inr, ◌⊎◌,
}
use go_mamacord.Cooldown.Policy.{
  Policy, normal, new_policy, add_bypass, root_of, is_some, command_cooldown, keyed_cooldown,
  cooldown_seconds, second,
}

-- Once a key is in the bypass set, the loop keeps it.
add_bypass_mono :
    (fold : ℕ → ℕ) (names : List GoString) (m : Map (Unit {0})) (k : GoString)
    → is_some (lookup k m) ≡ true
    → is_some (lookup k (add_bypass fold names m)) ≡ true
unfolding add_bypass
add_bypass_mono fold [] m k h = h
add_bypass_mono fold (n ∷ ns) m k h =
    add_bypass_mono fold ns _ k (ground (arith, lookup-insert (normal fold n) k tt m))

add_bypass-In :
    (fold : ℕ → ℕ) (names : List GoString) (m : Map (Unit {0})) (name : GoString)
    → In name names
    → is_nil (normal fold name) ≡ false
    → is_some (lookup (normal fold name) (add_bypass fold names m)) ≡ true
unfolding add_bypass
add_bypass-In fold [] m name i h = elim i [ ]
add_bypass-In fold (n ∷ ns) m name (here e) h = add_bypass_mono fold ns _ (normal fold name) (
    rw (← e) (
      ground (
        arith,
        lookup-insert (normal fold name) (normal fold name) tt m,
        str_eq_iff (normal fold name) (normal fold name),
      )))
add_bypass-In fold (n ∷ ns) m name (there i) h = add_bypass-In fold ns _ name i h

keyed_cooldown_bypassed :
    (p : Policy) (key root : GoString)
    → is_some (lookup root p.slash_bypass) ≡ true
    → keyed_cooldown p key root ≡ pos 0
unfolding keyed_cooldown
keyed_cooldown_bypassed p key root h = ground arith

ℕ_lt_or_le : (a b : ℕ) → (a < b) ⊎ (b ≤ a)
ℕ_lt_or_le a b = elim (Bool-cases (ltb a b)) [
  | inl y ↦ inl (ltb→lt a b y)
  | inr y ↦ inr (ground arith)
]

-- A command whose root is, up to case and surrounding space, a name in the bypass list that the policy was
-- made from has no cooldown, whatever the overrides say.
pub command_cooldown_bypassed :
    (fold : ℕ → ℕ) (slash component modal : ℤ) (bypass : List GoString)
    (overrides : List (GoString × ℤ)) (name entry : GoString)
    → In entry bypass
    → is_nil (normal fold entry) ≡ false
    → normal fold entry ≡ root_of (normal fold name)
    → command_cooldown fold (new_policy fold slash component modal bypass overrides) name ≡ pos 0
unfolding command_cooldown new_policy
command_cooldown_bypassed fold slash component modal bypass overrides name entry i named e =
    keyed_cooldown_bypassed (new_policy fold slash component modal bypass overrides)
      (normal fold name) (root_of (normal fold name))
      (rw (← e) (add_bypass-In fold bypass [] entry i named))

-- The seconds that are shown are at least 1. If less than half a second is left they are 1; otherwise,
-- if what is left is more than half a second below 2 ^ 63 nanoseconds, they are within half a second
-- of what is left, where a half counts as left over and not as shown.
pub cooldown_seconds_bounds :
    (n : ℕ)
    → n + 500000000 < 2 ^ 63
    → (1 ≤ cooldown_seconds (pos n))
      × (((n < 500000000) × (cooldown_seconds (pos n) ≡ 1))
          ⊎ ((500000000 ≤ n)
              × (cooldown_seconds (pos n) * second ≤ n + 500000000)
              × (n < cooldown_seconds (pos n) * second + 500000000)))
unfolding cooldown_seconds
cooldown_seconds_bounds n h = elim (ℕ_lt_or_le n 500000000) [
  | inl few ↦ (ground arith, inl (few, ground arith))
  | inr much ↦ (ground arith, inr (much, ground arith, ground arith))
]
