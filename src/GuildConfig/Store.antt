-- ===== src/GuildConfig/Store.antt =====
-- Loading and saving a guild's configuration of a plugin (config.go). The key-value store of the
-- plugins is an interface, and so is encoding/json; which fields are left out of the text when they
-- are zero (`omitempty`) is written out in `payload_of`.
use go_mamacord.Base.{
  not, ℕ, ◌≡◌, Bool, true, false, ◌||◌, Option, none, some, List, is_nil, if◌then◌else◌, ◌==◌,
  GoString, Map, lookup, ℤ, is_zero_ℤ,
}
use go_mamacord.GuildConfig.{
  PluginConfig, plugin_commands, is_moderation, is_wellness, set_commands, default_config,
  normalize,
}

-- The fields of a JSON object of a configuration: `none` for a key that is missing or whose value
-- does not decode.
pub record Payload : Type 0 where
  pub enabled : Option Bool
  pub commands : Option (Map Bool)
  pub warning_limit : Option ℤ
  pub timeout_threshold : Option ℤ
  pub timeout_minutes : Option ℤ
  pub allow_channel_reminders : Option Bool
  pub default_reminder_channel_id : Option ℕ

-- What the loads and the saves take of encoding/json: a text that was marshalled decodes to the fields
-- that were there, with the same entries in the map of commands; it is not empty.
pub record PayloadCodec : Type 0 where
  pub marshal : Payload → Option GoString
  pub unmarshal : GoString → Option Payload
  pub unmarshal-marshal :
      (p : Payload) (m : Map Bool) (text : GoString)
      → p.commands ≡ some m
      → marshal p ≡ some text
      → (is_nil text ≡ false)
        × (n : Map Bool) × (unmarshal text ≡ some (record p { commands = some n }))
        × ((j : GoString) → lookup j n ≡ lookup j m)

pub data Found : Type 0 where
  found : GoString → Found
  missing failed_read : Found

-- The plugins' key-value store at the key of the configuration, by guild and plugin. A put that
-- succeeds is read back.
pub record KvStore : Type 1 where
  pub Store : Type 0
  pub get : Store → ℕ → GoString → Found
  pub put : Store → ℕ → GoString → GoString → Store × Bool
  pub get-put :
      (s : Store) (guild : ℕ) (p text : GoString)
      → (put s guild p text).1 ≡ true
      → get (put s guild p text).0 guild p ≡ found text

abbrev pub omit_zero : ℤ → Option ℤ
omit_zero n = if is_zero_ℤ n then none else some n

abbrev pub omit_false : Bool → Option Bool
omit_false b = if b then some true else none

abbrev pub omit_zero_id : ℕ → Option ℕ
omit_zero_id n = if n == 0 then none else some n

-- The JSON tags of `PluginConfig`.
unfoldable pub payload_of : PluginConfig → Payload
payload_of c = record {
  enabled = some c.enabled;
  commands = some c.commands;
  warning_limit = omit_zero c.warning_limit;
  timeout_threshold = omit_zero c.timeout_threshold;
  timeout_minutes = omit_zero c.timeout_minutes;
  allow_channel_reminders = omit_false c.allow_channel_reminders;
  default_reminder_channel_id = omit_zero_id c.default_reminder_channel_id;
}

-- `loadInt`, `loadBool` and `loadUint64`
abbrev pub load_or {ℓ} : {A : Type ℓ} → Option A → A → A
load_or none fallback = fallback
load_or (some v) fallback = v

abbrev pub load_commands : Option (Map Bool) → List GoString → Map Bool → Map Bool
load_commands none cs m = m
load_commands (some given) cs m = set_commands given cs m

-- What `Load` makes of the decoded fields, before it normalizes it.
unfoldable pub read_payload : GoString → Payload → PluginConfig
read_payload p fields =
    let d = default_config p in
    record {
      enabled = load_or fields.enabled d.enabled;
      commands = load_commands fields.commands (plugin_commands p) d.commands;
      warning_limit =
          if is_moderation p then load_or fields.warning_limit d.warning_limit else d.warning_limit;
      timeout_threshold =
          if is_moderation p
          then load_or fields.timeout_threshold d.timeout_threshold
          else d.timeout_threshold;
      timeout_minutes =
          if is_moderation p
          then load_or fields.timeout_minutes d.timeout_minutes
          else d.timeout_minutes;
      allow_channel_reminders =
          if is_wellness p
          then load_or fields.allow_channel_reminders d.allow_channel_reminders
          else d.allow_channel_reminders;
      default_reminder_channel_id =
          if is_wellness p
          then load_or fields.default_reminder_channel_id d.default_reminder_channel_id
          else d.default_reminder_channel_id;
    }

pub data ConfigResult : Type 0 where
  config : PluginConfig → ConfigResult
  store_unavailable store_failed invalid_target not_encoded : ConfigResult

unfoldable pub read_fields : GoString → Option Payload → ConfigResult
unfolding read_payload
read_fields p none = config (default_config p)
read_fields p (some fields) = config (normalize p (read_payload p fields))

abbrev pub on_or_absent : Option Bool → Bool
on_or_absent none = true
on_or_absent (some b) = b

abbrev pub answer_enabled : ConfigResult → Option Bool
answer_enabled (config c) = some c.enabled
answer_enabled _ = none

abbrev pub answer_command : GoString → ConfigResult → Option Bool
answer_command name (config c) =
    some (if not c.enabled then false else on_or_absent (lookup name c.commands))
answer_command name _ = none

module _ (kv : KvStore) (json : PayloadCodec) where
  open kv use {Store, get, put, get-put}
  open json use {marshal, unmarshal, unmarshal-marshal}

  unfoldable pub read_found : GoString → Found → ConfigResult
  unfolding read_fields
  read_found p failed_read = store_failed
  read_found p missing = config (default_config p)
  read_found p (found text) =
      if is_nil text then config (default_config p) else read_fields p (unmarshal text)

  abbrev load_from : Option Store → ℕ → GoString → ConfigResult
  load_from none guild p = store_unavailable
  load_from (some s) guild p = read_found p (get s guild p)

  -- A store that is nil is `none`.
  unfoldable pub load : Option Store → ℕ → GoString → ConfigResult
  unfolding read_found
  load s guild p = if guild == 0 || is_nil p then config (default_config p) else load_from s guild p

  abbrev saved_as : PluginConfig → Store × Bool → Option Store × ConfigResult
  saved_as c (s, ok) = (some s, if ok then config c else store_failed)

  unfoldable pub save_text :
      Store → ℕ → GoString → PluginConfig → Option GoString → Option Store × ConfigResult
  save_text s guild p c none = (some s, not_encoded)
  save_text s guild p c (some text) = saved_as c (put s guild p text)

  abbrev save_to : Option Store → ℕ → GoString → PluginConfig → Option Store × ConfigResult
  save_to none guild p c = (none, store_unavailable)
  save_to (some s) guild p c = save_text s guild p c (marshal (payload_of c))

  unfoldable pub save : Option Store → ℕ → GoString → PluginConfig → Option Store × ConfigResult
  unfolding save_text payload_of
  save s guild p cfg =
      if guild == 0 || is_nil p then (s, invalid_target) else save_to s guild p (normalize p cfg)

  -- `none` stands for an error.
  unfoldable pub plugin_enabled : Option Store → ℕ → GoString → Option Bool
  unfolding load
  plugin_enabled s guild p = answer_enabled (load s guild p)

  unfoldable pub command_enabled : Option Store → ℕ → GoString → GoString → Option Bool
  unfolding load
  command_enabled s guild p name = answer_command name (load s guild p)
