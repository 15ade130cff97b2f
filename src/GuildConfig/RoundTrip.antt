-- ===== src/GuildConfig/RoundTrip.antt =====
-- What a guild's configuration of a plugin is after it was saved and is loaded again (config.go).
use go_mamacord.Base.{
  if◌then◌else◌, ◌&&◌, ℕ, zero, suc, ◌≤◌, ◌<◌, ◌≡◌, refl, sym, Bool, true, false, ◌||◌, Option,
  none, some, [], arith, is_nil, ◌==◌, GoString, Map, lookup, ℤ, pos, negsuc, inl, inr, Bool-cases,
}
use go_mamacord.GuildConfig.{
  PluginConfig, plugin_commands, is_moderation, is_wellness, default_config, normalize, clamp,
  enable_all,
}
use go_mamacord.GuildConfig.Laws.{
  is_command, SameConfig, normalize-commands, set_commands-lookup, enable_all-lookup, IsWithin,
  clamp_fixed, clamp-IsWithin,
}
use go_mamacord.GuildConfig.Store.{
  command_enabled, on_or_absent, Payload, PayloadCodec, found, KvStore, omit_zero, payload_of,
  load_or, read_payload, ConfigResult, config, read_fields, read_found, load, save, save_text,
}

-- A limit in its range is not left out of the text.
limit_kept :
    (v f : ℤ) (lo hi : ℕ) → 0 < lo → IsWithin lo hi v → clamp (load_or (omit_zero v) f) lo hi f ≡ v
limit_kept (pos zero) f lo hi h w = absurd (omega (arith, h, w.0))
limit_kept (pos (suc n)) f lo hi h w = clamp_fixed (pos (suc n)) f lo hi h w
limit_kept (negsuc n) f lo hi h w = absurd w

clamp_kept :
    (v f : ℤ) (lo hi : ℕ)
    → 0 < lo
    → lo ≤ hi
    → IsWithin lo hi f
    → clamp v lo hi f ≡ clamp (load_or (omit_zero (clamp v lo hi f)) f) lo hi f
clamp_kept v f lo hi h k w =
    sym (limit_kept (clamp v lo hi f) f lo hi h (clamp-IsWithin v f lo hi k w))

-- The payload of a normalized configuration, with another map of the same entries.
abbrev stored : GoString → PluginConfig → Map Bool → Payload
stored p cfg n = record (payload_of (normalize p cfg)) { commands = some n }

limits_kept :
    (p : GoString) (cfg : PluginConfig) (n : Map Bool)
    → let c = normalize p cfg in
      let d = normalize p (read_payload p (stored p cfg n)) in
      (c.warning_limit ≡ d.warning_limit)
      × (c.timeout_threshold ≡ d.timeout_threshold)
      × (c.timeout_minutes ≡ d.timeout_minutes)
unfolding normalize read_payload payload_of default_config
limits_kept p cfg n = elim (Bool-cases (is_moderation p)) [
  | inl on ↦ rw on (
    clamp_kept cfg.warning_limit (pos 3) 1 20 (omega arith) (omega arith)
        (omega arith, omega arith),
    clamp_kept cfg.timeout_threshold (pos 3) 1 20 (omega arith) (omega arith)
        (omega arith, omega arith),
    clamp_kept cfg.timeout_minutes (pos 10) 1 10080 (omega arith) (omega arith)
        (omega arith, omega arith),
  )
  | inr off ↦ rw off (refl, refl, refl)
]

commands_kept :
    (p : GoString) (cfg : PluginConfig) (n : Map Bool)
    → ((j : GoString) → lookup j n ≡ lookup j (normalize p cfg).commands)
    → (j : GoString)
    → lookup j (normalize p cfg).commands
      ≡ lookup j (normalize p (read_payload p (stored p cfg n))).commands
unfolding read_payload payload_of default_config
commands_kept p cfg n same j =
    let cs = plugin_commands p in
    ground (
      arith,
      same j,
      normalize-commands p cfg j,
      normalize-commands p (read_payload p (stored p cfg n)) j,
      set_commands-lookup n cs (enable_all cs []) j,
      enable_all-lookup cs [] j,
    )

reread :
    (p : GoString) (cfg : PluginConfig) (n : Map Bool)
    → ((j : GoString) → lookup j n ≡ lookup j (normalize p cfg).commands)
    → SameConfig
        (record (normalize p cfg) { allow_channel_reminders = is_wellness p })
        (normalize p (read_payload p (stored p cfg n)))
unfolding normalize read_payload payload_of default_config
reread p cfg n same =
    let (warn, threshold, minutes) = limits_kept p cfg n in
    record {
      enabled = refl;
      commands = commands_kept p cfg n same;
      warning_limit = warn;
      timeout_threshold = threshold;
      timeout_minutes = minutes;
      allow_channel_reminders = ground arith;
      default_reminder_channel_id = ground arith;
    }

module _ (kv : KvStore) (json : PayloadCodec) where
  open kv use {Store, get, put, get-put}
  open json use {marshal, unmarshal, unmarshal-marshal}

  -- The configuration is loaded but for the permission for channel reminders.
  abbrev pub Reloads : GoString → PluginConfig → ConfigResult → Type 0
  Reloads p c r =
      (d : PluginConfig) × (r ≡ config d)
      × SameConfig (record c { allow_channel_reminders = is_wellness p }) d

  read_found-marshal :
      (p : GoString) (cfg : PluginConfig) (text : GoString)
      → marshal (payload_of (normalize p cfg)) ≡ some text
      → Reloads p (normalize p cfg) (read_found kv json p (found text))
  unfolding read_found read_fields payload_of
  read_found-marshal p cfg text e =
      let (full, n, back, same) =
        unmarshal-marshal (payload_of (normalize p cfg)) (normalize p cfg).commands text refl e in
      (normalize p (read_payload p (stored p cfg n)), rw (full, back) refl, reread p cfg n same)

  save_text_kept :
      (s : Store) (guild : ℕ) (p : GoString) (cfg c : PluginConfig) (m : Option GoString)
      → marshal (payload_of (normalize p cfg)) ≡ m
      → (guild == 0 || is_nil p) ≡ false
      → (save_text kv json s guild p (normalize p cfg) m).1 ≡ config c
      → (c ≡ normalize p cfg)
        × Reloads p
            (normalize p cfg)
            (load kv json (save_text kv json s guild p (normalize p cfg) m).0 guild p)
  unfolding save_text load
  save_text_kept s guild p cfg c none e t h = cc
  save_text_kept s guild p cfg c (some text) e t h = elim (Bool-cases (put s guild p text).1) [
    | inl ok ↦
        (ground (arith, ok), rw (t, get-put s guild p text ok) (read_found-marshal p cfg text e))
    | inr failed ↦ absurd (ground (arith, failed))
  ]

  -- A configuration that was saved is the normalized one, and is loaded again as it was saved, but for
  -- the permission for channel reminders: whatever was saved, it is loaded as given for the plugin
  -- wellness and as refused for every other plugin.
  pub load-save :
      (s : Store) (guild : ℕ) (p : GoString) (cfg c : PluginConfig)
      → (save kv json (some s) guild p cfg).1 ≡ config c
      → (c ≡ normalize p cfg)
        × Reloads p (normalize p cfg) (load kv json (save kv json (some s) guild p cfg).0 guild p)
  unfolding save
  load-save s guild p cfg c h = elim (Bool-cases (guild == 0 || is_nil p)) [
    | inl refused ↦ absurd (ground (arith, refused))
    | inr named ↦ rw named (
        save_text_kept s guild p cfg c (marshal (payload_of (normalize p cfg))) refl named
          (rw named at h))
  ]

  normalize-enabled : (p : GoString) (cfg : PluginConfig) → (normalize p cfg).enabled ≡ cfg.enabled
  unfolding normalize
  normalize-enabled p cfg = refl

  -- After a configuration was saved, a command is enabled exactly when the plugin is on in it and the
  -- command is not off in it; a command that the plugin does not have counts as on.
  pub command_enabled-save :
      (s : Store) (guild : ℕ) (p name : GoString) (cfg c : PluginConfig)
      → (save kv json (some s) guild p cfg).1 ≡ config c
      → command_enabled kv json (save kv json (some s) guild p cfg).0 guild p name
        ≡ some (
            cfg.enabled
            && (if is_command name (plugin_commands p)
                then on_or_absent (lookup name cfg.commands)
                else true))
  unfolding command_enabled
  command_enabled-save s guild p name cfg c h =
      let (_, (d, loaded, same)) = load-save s guild p cfg c h in
      rw loaded (
        ground (
          arith,
          same.enabled,
          same.commands name,
          normalize-enabled p cfg,
          normalize-commands p cfg name,
        ))
