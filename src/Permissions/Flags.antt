-- ===== src/Permissions/Flags.antt =====
-- The switches of a permission set, one for each Boolean field, and the order by switches.
use go_mamacord.Base.{Bool, true, ◌&&◌, ◌||◌, ◌≡◌, refl}
use go_mamacord.Permissions.{Permissions, effective, merge}

pub data Flag : Type 0 where
  kv user_settings check_ins reminders warnings audit users guilds members roles channels messages
        reactions threads invites webhooks emojis stickers http read jobs member_join_leave
        moderation :
      Flag

abbrev pub allows : Permissions → Flag → Bool
allows p kv = p.storage.kv
allows p user_settings = p.storage.user_settings
allows p check_ins = p.storage.check_ins
allows p reminders = p.storage.reminders
allows p warnings = p.storage.warnings
allows p audit = p.storage.audit
allows p users = p.discord.users
allows p guilds = p.discord.guilds
allows p members = p.discord.members
allows p roles = p.discord.roles
allows p channels = p.discord.channels
allows p messages = p.discord.messages
allows p reactions = p.discord.reactions
allows p threads = p.discord.threads
allows p invites = p.discord.invites
allows p webhooks = p.discord.webhooks
allows p emojis = p.discord.emojis
allows p stickers = p.discord.stickers
allows p http = p.network.http
allows p read = p.resources.read
allows p jobs = p.automation.jobs
allows p member_join_leave = p.automation.events.member_join_leave
allows p moderation = p.automation.events.moderation

infix 50 ◌⊑◌
-- Every switch that the first set allows, the second allows.
abbrev pub ◌⊑◌ : Permissions → Permissions → Type 0
p ⊑ q = (f : Flag) → allows p f ≡ true → allows q f ≡ true

-- The switches are all there is to a permission set.
pub allows_ext : (p q : Permissions) → ((f : Flag) → allows p f ≡ allows q f) → p ≡ q
allows_ext p q h = λ i. record {
  storage = record {
    kv = h kv i;
    user_settings = h user_settings i;
    check_ins = h check_ins i;
    reminders = h reminders i;
    warnings = h warnings i;
    audit = h audit i;
  };
  discord = record {
    identity = record {
      users = h users i;
      guilds = h guilds i;
      members = h members i;
      roles = h roles i;
    };
    content = record {
      channels = h channels i;
      messages = h messages i;
      reactions = h reactions i;
      threads = h threads i;
    };
    integration = record {
      invites = h invites i;
      webhooks = h webhooks i;
      emojis = h emojis i;
      stickers = h stickers i;
    };
  };
  network = record { http = h http i };
  resources = record { read = h read i };
  automation = record {
    jobs = h jobs i;
    events = record { member_join_leave = h member_join_leave i; moderation = h moderation i };
  };
}

pub allows-effective :
    (r g : Permissions) (f : Flag) → allows (effective r g) f ≡ (allows r f && allows g f)
unfolding effective
allows-effective r g kv = refl
allows-effective r g _ = refl

pub allows-merge :
    (b o : Permissions) (f : Flag) → allows (merge b o) f ≡ (allows b f || allows o f)
unfolding merge
allows-merge b o kv = refl
allows-merge b o _ = refl

-- The permission set with the given switches.
abbrev pub of_flags : (Flag → Bool) → Permissions
of_flags on = record {
  storage = record {
    kv = on kv;
    user_settings = on user_settings;
    check_ins = on check_ins;
    reminders = on reminders;
    warnings = on warnings;
    audit = on audit;
  };
  discord = record {
    identity = record {
      users = on users;
      guilds = on guilds;
      members = on members;
      roles = on roles;
    };
    content = record {
      channels = on channels;
      messages = on messages;
      reactions = on reactions;
      threads = on threads;
    };
    integration = record {
      invites = on invites;
      webhooks = on webhooks;
      emojis = on emojis;
      stickers = on stickers;
    };
  };
  network = record { http = on http };
  resources = record { read = on read };
  automation = record {
    jobs = on jobs;
    events = record { member_join_leave = on member_join_leave; moderation = on moderation };
  };
}
