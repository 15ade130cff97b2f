-- ===== src/Permissions.antt =====
-- internal/permissions/policy.go: the permissions of a plugin, what the host's policy grants, and
-- what a plugin gets of what it requests. An embedded struct is a field that is opened, so that
-- `p.discord.users` reads as in the source. `LoadPolicyFile` and `WritePolicyFile` are in
-- Permissions/File.
pub mod Flags
pub mod Laws
pub mod File
mod Tests
use go_mamacord.Base.{
  Bool, ◌&&◌, ◌||◌, Option, none, some, if◌then◌else◌, is_nil, GoString, trim_space, Map, lookup,
  entries,
}

pub record StoragePermissions : Type 0 where
  pub kv : Bool
  pub user_settings : Bool
  pub check_ins : Bool
  pub reminders : Bool
  pub warnings : Bool
  pub audit : Bool

pub record DiscordIdentityPermissions : Type 0 where
  pub users : Bool
  pub guilds : Bool
  pub members : Bool
  pub roles : Bool

pub record DiscordContentPermissions : Type 0 where
  pub channels : Bool
  pub messages : Bool
  pub reactions : Bool
  pub threads : Bool

pub record DiscordIntegrationPermissions : Type 0 where
  pub invites : Bool
  pub webhooks : Bool
  pub emojis : Bool
  pub stickers : Bool

pub record DiscordPermissions : Type 0 where
  pub identity : DiscordIdentityPermissions
  pub open identity use *
  pub content : DiscordContentPermissions
  pub open content use *
  pub integration : DiscordIntegrationPermissions
  pub open integration use *

pub record NetworkPermissions : Type 0 where
  pub http : Bool

pub record ResourcePermissions : Type 0 where
  pub read : Bool

pub record AutomationEventPermissions : Type 0 where
  pub member_join_leave : Bool
  pub moderation : Bool

pub record AutomationPermissions : Type 0 where
  pub jobs : Bool
  pub events : AutomationEventPermissions

pub record Permissions : Type 0 where
  pub storage : StoragePermissions
  pub discord : DiscordPermissions
  pub network : NetworkPermissions
  pub resources : ResourcePermissions
  pub automation : AutomationPermissions

pub record Policy : Type 0 where
  pub schema : GoString
  pub defaults : Permissions
  pub plugins : Option (Map Permissions)  -- `none` is the nil map

-- What a plugin gets: requested and granted.
unfoldable pub effective : Permissions → Permissions → Permissions
effective requested granted = record {
  storage = record {
    kv = requested.storage.kv && granted.storage.kv;
    user_settings = requested.storage.user_settings && granted.storage.user_settings;
    check_ins = requested.storage.check_ins && granted.storage.check_ins;
    reminders = requested.storage.reminders && granted.storage.reminders;
    warnings = requested.storage.warnings && granted.storage.warnings;
    audit = requested.storage.audit && granted.storage.audit;
  };
  discord = record {
    identity = record {
      users = requested.discord.users && granted.discord.users;
      guilds = requested.discord.guilds && granted.discord.guilds;
      members = requested.discord.members && granted.discord.members;
      roles = requested.discord.roles && granted.discord.roles;
    };
    content = record {
      channels = requested.discord.channels && granted.discord.channels;
      messages = requested.discord.messages && granted.discord.messages;
      reactions = requested.discord.reactions && granted.discord.reactions;
      threads = requested.discord.threads && granted.discord.threads;
    };
    integration = record {
      invites = requested.discord.invites && granted.discord.invites;
      webhooks = requested.discord.webhooks && granted.discord.webhooks;
      emojis = requested.discord.emojis && granted.discord.emojis;
      stickers = requested.discord.stickers && granted.discord.stickers;
    };
  };
  network = record { http = requested.network.http && granted.network.http };
  resources = record { read = requested.resources.read && granted.resources.read };
  automation = record {
    jobs = requested.automation.jobs && granted.automation.jobs;
    events = record {
      member_join_leave =
          requested.automation.events.member_join_leave
          && granted.automation.events.member_join_leave;
      moderation = requested.automation.events.moderation && granted.automation.events.moderation;
    };
  };
}

-- Each assignment `out.X = out.X || override.X` of the source sets a field of its own.
unfoldable pub merge : Permissions → Permissions → Permissions
merge base override = record {
  storage = record {
    kv = base.storage.kv || override.storage.kv;
    user_settings = base.storage.user_settings || override.storage.user_settings;
    check_ins = base.storage.check_ins || override.storage.check_ins;
    reminders = base.storage.reminders || override.storage.reminders;
    warnings = base.storage.warnings || override.storage.warnings;
    audit = base.storage.audit || override.storage.audit;
  };
  discord = record {
    identity = record {
      users = base.discord.users || override.discord.users;
      guilds = base.discord.guilds || override.discord.guilds;
      members = base.discord.members || override.discord.members;
      roles = base.discord.roles || override.discord.roles;
    };
    content = record {
      channels = base.discord.channels || override.discord.channels;
      messages = base.discord.messages || override.discord.messages;
      reactions = base.discord.reactions || override.discord.reactions;
      threads = base.discord.threads || override.discord.threads;
    };
    integration = record {
      invites = base.discord.invites || override.discord.invites;
      webhooks = base.discord.webhooks || override.discord.webhooks;
      emojis = base.discord.emojis || override.discord.emojis;
      stickers = base.discord.stickers || override.discord.stickers;
    };
  };
  network = record { http = base.network.http || override.network.http };
  resources = record { read = base.resources.read || override.resources.read };
  automation = record {
    jobs = base.automation.jobs || override.automation.jobs;
    events = record {
      member_join_leave =
          base.automation.events.member_join_leave || override.automation.events.member_join_leave;
      moderation = base.automation.events.moderation || override.automation.events.moderation;
    };
  };
}

abbrev pub merge_override : Permissions → Option Permissions → Permissions
merge_override g none = g
merge_override g (some override) = merge g override

unfoldable pub granted : Policy → GoString → Permissions
granted p plugin_id =
    if is_nil (trim_space plugin_id)
    then p.defaults
    else merge_override p.defaults (lookup plugin_id (entries p.plugins))
