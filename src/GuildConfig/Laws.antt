-- ===== src/GuildConfig/Laws.antt =====
-- What the normalization of a configuration gives (config.go).
use go_mamacord.Base.{
  ℕ, zero, suc, ◌≤◌, ◌<◌, ◌≡◌, refl, Bool, true, Option, none, some, List, [], ◌∷◌, arith, any,
  if◌then◌else◌, GoString, str_eq, str_eq_iff, Map, lookup, insert, lookup-insert, ℤ, pos, negsuc,
  inl, inr, Bool-cases,
}
use go_mamacord.GuildConfig.{
  PluginConfig, plugin_commands, is_moderation, enable_all, set_given, set_commands, default_config,
  clamp, normalize,
}

abbrev pub or_else : Option Bool → Option Bool → Option Bool
or_else none b = b
or_else (some a) b = some a

abbrev pub is_command : GoString → List GoString → Bool
is_command j cs = any (λ c. str_eq c j) cs

set_given-lookup :
    (c j : GoString) (r : Option Bool) (m : Map Bool)
    → lookup j (set_given c r m) ≡ (if str_eq c j then or_else r (lookup j m) else lookup j m)
set_given-lookup c j none m = ground arith
set_given-lookup c j (some e) m = ground (arith, lookup-insert c j e m)

pub set_commands-lookup :
    (given : Map Bool) (cs : List GoString) (m : Map Bool) (j : GoString)
    → lookup j (set_commands given cs m)
      ≡ (if is_command j cs then or_else (lookup j given) (lookup j m) else lookup j m)
unfolding set_commands
set_commands-lookup given [] m j = refl
set_commands-lookup given (c ∷ cs) m j =
    let rest = set_commands-lookup given cs (set_given c (lookup c given) m) j in
    let one = set_given-lookup c j (lookup c given) m in ground (arith, rest, one, str_eq_iff c j)

pub enable_all-lookup :
    (cs : List GoString) (m : Map Bool) (j : GoString)
    → lookup j (enable_all cs m) ≡ (if is_command j cs then some true else lookup j m)
unfolding enable_all
enable_all-lookup [] m j = refl
enable_all-lookup (c ∷ cs) m j =
    ground (arith, enable_all-lookup cs (insert c true m) j, lookup-insert c j true m)

-- A command of the plugin is on or off as the configuration says, and on where it says nothing; no
-- other command is there.
pub normalize-commands :
    (p : GoString) (cfg : PluginConfig) (j : GoString)
    → lookup j (normalize p cfg).commands ≡ (
        if is_command j (plugin_commands p)
        then or_else (lookup j cfg.commands) (some true)
        else none)
unfolding normalize default_config
normalize-commands p cfg j =
    let cs = plugin_commands p in
    ground
      (arith, set_commands-lookup cfg.commands cs (enable_all cs []) j, enable_all-lookup cs [] j)

abbrev pub IsWithin : ℕ → ℕ → ℤ → Type 0
IsWithin lo hi (pos n) = (lo ≤ n) × (n ≤ hi)
IsWithin lo hi (negsuc n) = ⊥

pub clamp-IsWithin :
    (v f : ℤ) (lo hi : ℕ) → lo ≤ hi → IsWithin lo hi f → IsWithin lo hi (clamp v lo hi f)
unfolding clamp
clamp-IsWithin (pos zero) f lo hi h g = g
clamp-IsWithin (pos (suc n)) f lo hi h g = ground arith
clamp-IsWithin (negsuc n) f lo hi h g = (ground arith, h)

-- The limits of a normalized moderation configuration are in their ranges.
pub normalize-IsWithin :
    (p : GoString) (cfg : PluginConfig)
    → is_moderation p ≡ true
    → IsWithin 1 20 (normalize p cfg).warning_limit
      × IsWithin 1 20 (normalize p cfg).timeout_threshold
      × IsWithin 1 10080 (normalize p cfg).timeout_minutes
unfolding normalize default_config
normalize-IsWithin p cfg h = rw h (
  clamp-IsWithin cfg.warning_limit (pos 3) 1 20 (omega arith) (omega arith, omega arith),
  clamp-IsWithin cfg.timeout_threshold (pos 3) 1 20 (omega arith) (omega arith, omega arith),
  clamp-IsWithin cfg.timeout_minutes (pos 10) 1 10080 (omega arith) (omega arith, omega arith),
)

pub clamp_fixed : (v f : ℤ) (lo hi : ℕ) → 0 < lo → IsWithin lo hi v → clamp v lo hi f ≡ v
unfolding clamp
clamp_fixed (pos zero) f lo hi h w = absurd (omega (arith, h, w.0))
clamp_fixed (pos (suc n)) f lo hi h w = ground arith
clamp_fixed (negsuc n) f lo hi h w = absurd w

-- Two configurations that say the same: a map of commands counts by what it answers.
pub record SameConfig (a b : PluginConfig) : Type 0 where
  pub enabled : a.enabled ≡ b.enabled
  pub commands : (j : GoString) → lookup j a.commands ≡ lookup j b.commands
  pub warning_limit : a.warning_limit ≡ b.warning_limit
  pub timeout_threshold : a.timeout_threshold ≡ b.timeout_threshold
  pub timeout_minutes : a.timeout_minutes ≡ b.timeout_minutes
  pub allow_channel_reminders : a.allow_channel_reminders ≡ b.allow_channel_reminders
  pub default_reminder_channel_id : a.default_reminder_channel_id ≡ b.default_reminder_channel_id

-- A clamp whose fallback is in the range is done once for all.
reclamp :
    (v f : ℤ) (lo hi : ℕ)
    → 0 < lo
    → lo ≤ hi
    → IsWithin lo hi f
    → clamp (clamp v lo hi f) lo hi f ≡ clamp v lo hi f
reclamp v f lo hi h k w = clamp_fixed (clamp v lo hi f) f lo hi h (clamp-IsWithin v f lo hi k w)

normalize_limits :
    (p : GoString) (cfg : PluginConfig)
    → let n = normalize p cfg in
      ((normalize p n).warning_limit ≡ n.warning_limit)
      × ((normalize p n).timeout_threshold ≡ n.timeout_threshold)
      × ((normalize p n).timeout_minutes ≡ n.timeout_minutes)
unfolding normalize default_config
normalize_limits p cfg = elim (Bool-cases (is_moderation p)) [
  | inl on ↦ rw on (
    reclamp cfg.warning_limit (pos 3) 1 20 (omega arith) (omega arith) (omega arith, omega arith),
    reclamp cfg.timeout_threshold (pos 3) 1 20 (omega arith) (omega arith)
        (omega arith, omega arith),
    reclamp cfg.timeout_minutes (pos 10) 1 10080 (omega arith) (omega arith)
        (omega arith, omega arith),
  )
  | inr off ↦ rw off (refl, refl, refl)
]

-- Normalizing a configuration twice is normalizing it once.
pub normalize_idempotent :
    (p : GoString) (cfg : PluginConfig)
    → SameConfig (normalize p (normalize p cfg)) (normalize p cfg)
unfolding normalize default_config
normalize_idempotent p cfg =
    let (warn, threshold, minutes) = normalize_limits p cfg in
    record {
      enabled = refl;
      commands =
          λ j. ground (arith, normalize-commands p (normalize p cfg) j, normalize-commands p cfg j);
      warning_limit = warn;
      timeout_threshold = threshold;
      timeout_minutes = minutes;
      allow_channel_reminders = ground arith;
      default_reminder_channel_id = ground arith;
    }
