-- ===== src/GuildConfig.antt =====
-- internal/guildconfig/config.go: how a guild configures a plugin. The configuration is kept as JSON
-- in the plugin's key-value store; both are parameters of GuildConfig/Store.
pub mod Laws
pub mod Store
pub mod RoundTrip
mod Memory
mod Tests
use go_mamacord.Base.{
  ℕ, Bool, true, false, Option, none, some, List, [], ◌∷◌, if◌then◌else◌, GoString, codes, str_eq,
  Map, lookup, insert, ℤ, pos, is_zero_ℤ, is_below, is_above,
}

pub record PluginConfig : Type 0 where
  pub enabled : Bool
  pub commands : Map Bool
  pub warning_limit : ℤ
  pub timeout_threshold : ℤ
  pub timeout_minutes : ℤ
  pub allow_channel_reminders : Bool
  pub default_reminder_channel_id : ℕ

abbrev fun_commands : List GoString
fun_commands =
    codes "8ball"
    ∷ codes "flip"
    ∷ codes "hug"
    ∷ codes "pat"
    ∷ codes "poke"
    ∷ codes "roll"
    ∷ codes "shrug"
    ∷ []

abbrev manager_commands : List GoString
manager_commands =
    codes "slowmode"
    ∷ codes "nick"
    ∷ codes "roles"
    ∷ codes "purge"
    ∷ codes "emojis"
    ∷ codes "stickers"
    ∷ []

-- `pluginCommands`; a plugin that is not in it has no commands.
unfoldable pub plugin_commands : GoString → List GoString
plugin_commands p =
    if str_eq p (codes "fun")
    then fun_commands
    else if str_eq p (codes "info")
    then codes "about" ∷ codes "lookup" ∷ []
    else if str_eq p (codes "manager")
    then manager_commands
    else if str_eq p (codes "moderation")
    then codes "warn" ∷ codes "unwarn" ∷ []
    else if str_eq p (codes "wellness")
    then codes "timezone" ∷ codes "checkin" ∷ codes "remind" ∷ []
    else []

unfoldable pub is_moderation : GoString → Bool
is_moderation p = str_eq p (codes "moderation")

unfoldable pub is_wellness : GoString → Bool
is_wellness p = str_eq p (codes "wellness")

-- `for _, command := range commands { cfg.Commands[command] = true }`
unfoldable pub enable_all : List GoString → Map Bool → Map Bool
enable_all [] m = m
enable_all (c ∷ cs) m = enable_all cs (insert c true m)

-- The body of the loop that takes over what is given for a command.
abbrev pub set_given : GoString → Option Bool → Map Bool → Map Bool
set_given c none m = m
set_given c (some e) m = insert c e m

unfoldable pub set_commands : Map Bool → List GoString → Map Bool → Map Bool
set_commands given [] m = m
set_commands given (c ∷ cs) m = set_commands given cs (set_given c (lookup c given) m)

unfoldable pub default_config : GoString → PluginConfig
unfolding enable_all
default_config p = record {
  enabled = true;
  commands = enable_all (plugin_commands p) [];
  warning_limit = if is_moderation p then pos 3 else pos 0;
  timeout_threshold = if is_moderation p then pos 3 else pos 0;
  timeout_minutes = if is_moderation p then pos 10 else pos 0;
  allow_channel_reminders = is_wellness p;
  default_reminder_channel_id = 0;
}

unfoldable pub clamp : ℤ → ℕ → ℕ → ℤ → ℤ
clamp value min_value max_value fallback =
    if is_zero_ℤ value
    then fallback
    else if is_below value min_value
    then pos min_value
    else if is_above value max_value
    then pos max_value
    else value

unfoldable pub normalize : GoString → PluginConfig → PluginConfig
unfolding clamp
normalize p cfg =
    let d = default_config p in
    record {
      enabled = cfg.enabled;
      commands = set_commands cfg.commands (plugin_commands p) d.commands;
      warning_limit =
          if is_moderation p then clamp cfg.warning_limit 1 20 d.warning_limit else d.warning_limit;
      timeout_threshold =
          if is_moderation p
          then clamp cfg.timeout_threshold 1 20 d.timeout_threshold
          else d.timeout_threshold;
      timeout_minutes =
          if is_moderation p
          then clamp cfg.timeout_minutes 1 10080 d.timeout_minutes
          else d.timeout_minutes;
      allow_channel_reminders =
          if is_wellness p then cfg.allow_channel_reminders else d.allow_channel_reminders;
      default_reminder_channel_id =
          if is_wellness p then cfg.default_reminder_channel_id else d.default_reminder_channel_id;
    }
