-- ===== src/Contract/Domain.antt =====
-- domain.go: the operations on Discord and on the bot's storage. A pointer field is an Option.
use go_mamacord.Base.{Bool, Option, GoString, ℤ}
use go_mamacord.Contract.Value.{Value}
use go_mamacord.Contract.View.{Message}

pub data PurgeMode : Type 0 where
  all_messages before after around unknown_mode : PurgeMode

pub data AuditTarget : Type 0 where
  no_target user_target guild_target unknown_target : AuditTarget

pub record Reminder : Type 0 where
  pub reminder_id : GoString
  pub schedule : GoString
  pub kind : GoString
  pub note : GoString
  pub delivery : GoString
  pub channel_id : GoString
  pub next_run_at : ℤ

-- `metadata` is `none` for the zero Value, which has no kind.
pub record Audit : Type 0 where
  pub action : GoString
  pub target_type : AuditTarget
  pub target_id : GoString
  pub created_at : ℤ
  pub metadata : Option Value

pub data DomainOperation : Type 0 where
  send_channel : (channel_id : GoString) → Message → DomainOperation
  send_dm : (user_id : GoString) → Message → DomainOperation
  timeout_member : (user_id : GoString) (until_unix : ℤ) → DomainOperation
  set_slowmode : (channel_id : GoString) (seconds : ℤ) → DomainOperation
  set_nickname : (user_id : GoString) (nickname : Option GoString) → DomainOperation
  purge_messages :
      (channel_id : GoString) (mode : PurgeMode) (anchor : GoString) (count : ℤ) → DomainOperation
  create_role :
      (name : GoString) (color : Option ℤ) (hoist mentionable : Option Bool) → DomainOperation
  edit_role :
      (role_id : GoString) (name : Option GoString) (color : Option ℤ)
      (hoist mentionable : Option Bool)
      → DomainOperation
  delete_role : (role_id : GoString) → DomainOperation
  member_role : (user_id role_id : GoString) (add : Bool) → DomainOperation
  create_emoji : (name attachment_id : GoString) → DomainOperation
  edit_emoji : (emoji name : GoString) → DomainOperation
  delete_emoji : (emoji : GoString) → DomainOperation
  create_sticker : (name description emoji_tag attachment_id : GoString) → DomainOperation
  edit_sticker :
      (sticker_id : GoString) (name description emoji_tag : Option GoString) → DomainOperation
  delete_sticker : (sticker_id : GoString) → DomainOperation
  set_timezone : (timezone : GoString) → DomainOperation
  clear_timezone : DomainOperation
  create_check_in : (mood created_at : ℤ) → DomainOperation
  create_reminder : Reminder → DomainOperation
  delete_reminder : (reminder_id : GoString) → DomainOperation
  create_warning : (user_id reason : GoString) (created_at : ℤ) → DomainOperation
  delete_warning : (warning_id target_user_id : GoString) → DomainOperation
  append_audit : Audit → DomainOperation
