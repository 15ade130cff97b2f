-- ===== src/GuildConfig/Tests.antt =====
-- Tests of the guild configuration, and its theorems at concrete inputs.
use go_mamacord.Base.{
  ℕ, ◌≡◌, refl, true, false, ◌&&◌, none, some, [], if◌then◌else◌, GoString, codes, lookup, insert,
  pos, negsuc,
}
use go_mamacord.GuildConfig.{
  PluginConfig, plugin_commands, is_moderation, default_config, normalize, clamp,
}
use go_mamacord.GuildConfig.Laws.{
  SameConfig, normalize-commands, normalize-IsWithin, normalize_idempotent, IsWithin, is_command,
  or_else,
}
use go_mamacord.GuildConfig.Store.{Found, missing, payload_of, config, load, save, save_text}
use go_mamacord.GuildConfig.Memory.{list_codec, memory_store}
use go_mamacord.GuildConfig.Store.{command_enabled, on_or_absent}
use go_mamacord.Base.{◌&&◌}
use go_mamacord.GuildConfig.RoundTrip.{command_enabled-save, Reloads, load-save}

abbrev empty_store : ℕ → GoString → Found
empty_store guild p = missing

abbrev wellness : GoString
wellness = codes "wellness"

abbrev moderation : GoString
moderation = codes "moderation"

-- A guild that turns one command and the channel reminders off, and has limits out of range.
abbrev strict : PluginConfig
strict = record {
  enabled = true;
  commands = insert (codes "remind") false (insert (codes "other") true []);
  warning_limit = pos 50;
  timeout_threshold = negsuc 3;
  timeout_minutes = pos 0;
  allow_channel_reminders = false;
  default_reminder_channel_id = 9;
}

strict_limits :
    ((normalize moderation strict).warning_limit ≡ pos 20)
    × ((normalize moderation strict).timeout_threshold ≡ pos 1)
    × ((normalize moderation strict).timeout_minutes ≡ pos 10)
unfolding normalize default_config clamp is_moderation
strict_limits = (refl, refl, refl)

normalize-commands_example : lookup (codes "remind") (normalize wellness strict).commands ≡ (
    if is_command (codes "remind") (plugin_commands wellness)
    then or_else (lookup (codes "remind") strict.commands) (some true)
    else none)
normalize-commands_example = normalize-commands wellness strict (codes "remind")

is_moderation_moderation : is_moderation moderation ≡ true
unfolding is_moderation
is_moderation_moderation = refl

normalize-IsWithin_example :
    IsWithin 1 20 (normalize moderation strict).warning_limit
    × IsWithin 1 20 (normalize moderation strict).timeout_threshold
    × IsWithin 1 10080 (normalize moderation strict).timeout_minutes
normalize-IsWithin_example = normalize-IsWithin moderation strict is_moderation_moderation

normalize_idempotent_example :
    SameConfig (normalize moderation (normalize moderation strict)) (normalize moderation strict)
normalize_idempotent_example = normalize_idempotent moderation strict

saved_strict :
    (save memory_store list_codec (some empty_store) 7 wellness strict).1
    ≡ config (normalize wellness strict)
unfolding save save_text payload_of
saved_strict = refl

load-save_example :
    (normalize wellness strict ≡ normalize wellness strict)
    × Reloads memory_store list_codec wellness (normalize wellness strict) (
        load memory_store list_codec
          (save memory_store list_codec (some empty_store) 7 wellness strict).0
          7
          wellness)
load-save_example =
    load-save memory_store list_codec empty_store 7 wellness strict (normalize wellness strict)
      saved_strict

command_enabled-save_example :
    command_enabled memory_store list_codec
      (save memory_store list_codec (some empty_store) 7 wellness strict).0
      7
      wellness
      (codes "remind")
    ≡ some (
        strict.enabled
        && (if is_command (codes "remind") (plugin_commands wellness)
            then on_or_absent (lookup (codes "remind") strict.commands)
            else true))
command_enabled-save_example =
    command_enabled-save memory_store list_codec empty_store 7 wellness (codes "remind") strict
      (normalize wellness strict) saved_strict
