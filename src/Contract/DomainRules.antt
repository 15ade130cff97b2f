-- ===== src/Contract/DomainRules.antt =====
-- domain.go: the validation of each operation on Discord or on the bot's storage in an invocation
-- (`validateDomain`). `is_https` is the parameter of View.
use go_mamacord.Base.{
  ℕ, Bool, true, false, not, ◌&&◌, ◌||◌, Option, none, some, [], if◌then◌else◌, is_nil, GoString,
  codes, str_eq, trim_space, ℤ, is_below, is_above, ltb_ℤ, is_positive,
}
use go_mamacord.Contract.Value.{Value, Sized, sized, failed, validate_state}
use go_mamacord.Contract.Verdict.{Verdict, valid, invalid, ◌>>◌, refuse_if}
use go_mamacord.Contract.View.{Message, over}
use go_mamacord.Contract.Components.{validate_message, is_none}
use go_mamacord.Contract.Inputs.{Invocation, lacks}
use go_mamacord.Contract.Invocation.{validate_snowflake, validate_attachment}
use go_mamacord.Contract.Domain.{
  PurgeMode, all_messages, unknown_mode, AuditTarget, no_target, unknown_target, Reminder, Audit,
  DomainOperation, send_channel, send_dm, timeout_member, set_slowmode, set_nickname,
  purge_messages, create_role, edit_role, delete_role, member_role, create_emoji, edit_emoji,
  delete_emoji, create_sticker, edit_sticker, delete_sticker, set_timezone, clear_timezone,
  create_check_in, create_reminder, delete_reminder, create_warning, delete_warning, append_audit,
}

abbrev pub text_or_empty : Option GoString → GoString
text_or_empty none = []
text_or_empty (some s) = s

abbrev pub color_outside : Option ℤ → Bool
color_outside none = false
color_outside (some c) = is_below c 0 || is_above c 0xFFFFFF

unfoldable pub validate_role_mutation : GoString → Option ℤ → Verdict
validate_role_mutation name color =
    refuse_if (not (is_nil name) && (is_nil (trim_space name) || over name 100))
      "role name is invalid"
    >> refuse_if (color_outside color) "role color is outside RGB range"

unfoldable pub validate_asset_name : GoString → ℕ → Verdict
validate_asset_name s most =
    refuse_if (is_nil (trim_space s) || over s most) "asset name is invalid"

-- A text that is blank or longer than the bound.
abbrev pub blank_or_over : GoString → ℕ → Bool
blank_or_over s most = is_nil (trim_space s) || over s most

abbrev pub validate_nickname : Option GoString → Verdict
validate_nickname none = invalid "nickname value is required"
validate_nickname (some s) =
    refuse_if (over s 32) "nickname must be valid UTF-8 and at most 32 characters"

abbrev pub validate_anchor : PurgeMode → GoString → Verdict
validate_anchor all_messages anchor = refuse_if (not (is_nil anchor)) "all purge cannot have anchor"
validate_anchor unknown_mode anchor = invalid "unsupported purge mode"
validate_anchor _ anchor = validate_snowflake anchor

abbrev pub asset_name_option : Option GoString → Verdict
asset_name_option none = valid
asset_name_option (some s) = validate_asset_name s 30

abbrev pub blank_tag : Option GoString → Bool
blank_tag none = false
blank_tag (some s) = is_nil (trim_space s)

abbrev pub over_option : Option GoString → ℕ → Bool
over_option none most = false
over_option (some s) most = over s most

abbrev pub validate_delivery : Invocation → Reminder → Verdict
validate_delivery i r =
    if str_eq r.delivery (codes "channel")
    then refuse_if (lacks i.guild) "channel reminder requires guild"
      >> validate_snowflake r.channel_id
    else refuse_if (not (is_nil r.channel_id)) "DM reminder cannot have channel id"

abbrev pub validate_target : AuditTarget → GoString → Verdict
validate_target no_target id = refuse_if (not (is_nil id)) "audit target id requires target type"
validate_target unknown_target id = invalid "audit target type is invalid"
validate_target _ id = validate_snowflake id

abbrev pub is_no_target : AuditTarget → Bool
is_no_target no_target = true
is_no_target _ = false

abbrev pub state_verdict : Sized → Verdict
state_verdict (sized n k) = valid
state_verdict (failed e) = invalid "value is invalid"

abbrev pub validate_metadata : Option Value → Verdict
validate_metadata none = valid
validate_metadata (some v) = state_verdict (validate_state v)

unfoldable pub validate_audit : Invocation → Audit → Verdict
validate_audit i a =
    refuse_if (blank_or_over a.action 100) "audit action is invalid"
    >> (refuse_if (not (is_positive a.created_at)) "audit timestamp is required"
        >> (validate_target a.target_type a.target_id
            >> (validate_metadata a.metadata
                >> refuse_if (lacks i.guild && not (is_no_target a.target_type))
                    "scoped audit requires guild")))

unfoldable pub validate_reminder : Invocation → Reminder → Verdict
validate_reminder i r =
    refuse_if (lacks i.author) "reminder requires author"
    >> (refuse_if (blank_or_over r.reminder_id 100) "reminder id is invalid"
        >> (refuse_if
              (is_nil (trim_space r.schedule)
                || is_nil (trim_space r.kind)
                || not (is_positive r.next_run_at))
              "reminder fields are invalid"
            >> (refuse_if
                  (not (str_eq r.delivery (codes "dm"))
                    && not (str_eq r.delivery (codes "channel")))
                  "reminder delivery is invalid"
                >> validate_delivery i r)))

abbrev pub guild_first : Invocation → Verdict → Verdict
guild_first i v = refuse_if (lacks i.guild) "operation requires guild context" >> v

abbrev pub author_first : Invocation → Verdict → Verdict
author_first i v = refuse_if (lacks i.author) "operation requires author" >> v

abbrev pub validate_send_channel : (GoString → Bool) → Invocation → GoString → Message → Verdict
validate_send_channel https i id m = validate_snowflake id >> validate_message https m

abbrev pub validate_send_dm : (GoString → Bool) → Invocation → GoString → Message → Verdict
validate_send_dm https i id m = validate_snowflake id >> validate_message https m

abbrev pub validate_timeout_member : Invocation → GoString → ℤ → Verdict
validate_timeout_member i id until_ = guild_first i (
    validate_snowflake id
    >> refuse_if (not (ltb_ℤ i.now_unix until_)) "timeout must end in the future")

abbrev pub validate_set_slowmode : Invocation → GoString → ℤ → Verdict
validate_set_slowmode i id seconds = guild_first i (
    validate_snowflake id
    >> refuse_if (is_below seconds 0 || is_above seconds 21600)
        "slowmode must be between 0 and 21600 seconds")

abbrev pub validate_set_nickname : Invocation → GoString → Option GoString → Verdict
validate_set_nickname i id nickname =
    guild_first i (validate_snowflake id >> validate_nickname nickname)

abbrev pub validate_purge_messages : Invocation → GoString → PurgeMode → GoString → ℤ → Verdict
validate_purge_messages i id mode anchor n = guild_first i (
    validate_snowflake id
    >> (refuse_if (is_below n 1 || is_above n 100) "purge count must be between 1 and 100"
        >> validate_anchor mode anchor))

abbrev pub validate_create_role :
    Invocation → GoString → Option ℤ → Option Bool → Option Bool → Verdict
validate_create_role i name color hoist mentionable = guild_first i (
    refuse_if (is_nil (trim_space name)) "role name is required"
    >> validate_role_mutation name color)

abbrev pub validate_edit_role :
    Invocation → GoString → Option GoString → Option ℤ → Option Bool → Option Bool → Verdict
validate_edit_role i id name color hoist mentionable = guild_first i (
    validate_snowflake id
    >> (refuse_if (is_none name && is_none color && is_none hoist && is_none mentionable)
          "edit role has no fields"
        >> validate_role_mutation (text_or_empty name) color))

abbrev pub validate_delete_role : Invocation → GoString → Verdict
validate_delete_role i id = guild_first i (validate_snowflake id)

abbrev pub validate_member_role : Invocation → GoString → GoString → Bool → Verdict
validate_member_role i user role add =
    guild_first i (validate_snowflake user >> validate_snowflake role)

abbrev pub validate_create_emoji : Invocation → GoString → GoString → Verdict
validate_create_emoji i name attachment =
    guild_first i (validate_asset_name name 32 >> validate_attachment i attachment)

abbrev pub validate_edit_emoji : Invocation → GoString → GoString → Verdict
validate_edit_emoji i emoji name = guild_first i (
    refuse_if (blank_or_over emoji 100) "emoji reference is invalid" >> validate_asset_name name 32)

abbrev pub validate_delete_emoji : Invocation → GoString → Verdict
validate_delete_emoji i emoji =
    guild_first i (refuse_if (blank_or_over emoji 100) "emoji reference is invalid")

abbrev pub validate_create_sticker :
    Invocation → GoString → GoString → GoString → GoString → Verdict
validate_create_sticker i name description tag attachment = guild_first i (
    validate_asset_name name 30
    >> (refuse_if (over description 100) "sticker description exceeds 100 characters"
        >> (refuse_if (blank_or_over tag 200) "sticker emoji tag is invalid"
            >> validate_attachment i attachment)))

abbrev pub validate_edit_sticker :
    Invocation → GoString → Option GoString → Option GoString → Option GoString → Verdict
validate_edit_sticker i id name description tag = guild_first i (
    validate_snowflake id
    >> (refuse_if (is_none name && is_none description && is_none tag) "edit sticker has no fields"
        >> (asset_name_option name
            >> (refuse_if (over_option description 100) "sticker description exceeds 100 characters"
                >> refuse_if (blank_tag tag) "sticker emoji tag is invalid"))))

abbrev pub validate_delete_sticker : Invocation → GoString → Verdict
validate_delete_sticker i id = guild_first i (validate_snowflake id)

abbrev pub validate_set_timezone : Invocation → GoString → Verdict
validate_set_timezone i zone =
    author_first i (refuse_if (blank_or_over zone 100) "timezone is invalid")

abbrev pub validate_clear_timezone : Invocation → Verdict
validate_clear_timezone i = author_first i valid

abbrev pub validate_create_check_in : Invocation → ℤ → ℤ → Verdict
validate_create_check_in i mood at = author_first i (
    refuse_if (is_below mood 1 || is_above mood 5) "mood must be between 1 and 5"
    >> refuse_if (not (is_positive at)) "check-in timestamp is required")

abbrev pub validate_create_reminder : Invocation → Reminder → Verdict
validate_create_reminder i r = validate_reminder i r

abbrev pub validate_delete_reminder : Invocation → GoString → Verdict
validate_delete_reminder i id =
    author_first i (refuse_if (blank_or_over id 100) "reminder id is invalid")

abbrev pub validate_create_warning : Invocation → GoString → GoString → ℤ → Verdict
validate_create_warning i user reason at = guild_first i (
    author_first i (
      validate_snowflake user
      >> (refuse_if (blank_or_over reason 1000) "warning reason is invalid"
          >> refuse_if (not (is_positive at)) "warning timestamp is required")))

abbrev pub validate_delete_warning : Invocation → GoString → GoString → Verdict
validate_delete_warning i id target = guild_first i (
    author_first i
      (refuse_if (blank_or_over id 100) "warning id is invalid" >> validate_snowflake target))

abbrev pub validate_append_audit : Invocation → Audit → Verdict
validate_append_audit i a = validate_audit i a

-- `validateDomain` of each operation.
unfoldable pub validate_domain : (GoString → Bool) → Invocation → DomainOperation → Verdict
validate_domain https i (send_channel id m) = validate_send_channel https i id m
validate_domain https i (send_dm id m) = validate_send_dm https i id m
validate_domain https i (timeout_member id until_) = validate_timeout_member i id until_
validate_domain https i (set_slowmode id seconds) = validate_set_slowmode i id seconds
validate_domain https i (set_nickname id nickname) = validate_set_nickname i id nickname
validate_domain https i (purge_messages id mode anchor n) =
    validate_purge_messages i id mode anchor n
validate_domain https i (create_role name color hoist mentionable) =
    validate_create_role i name color hoist mentionable
validate_domain https i (edit_role id name color hoist mentionable) =
    validate_edit_role i id name color hoist mentionable
validate_domain https i (delete_role id) = validate_delete_role i id
validate_domain https i (member_role user role add) = validate_member_role i user role add
validate_domain https i (create_emoji name attachment) = validate_create_emoji i name attachment
validate_domain https i (edit_emoji emoji name) = validate_edit_emoji i emoji name
validate_domain https i (delete_emoji emoji) = validate_delete_emoji i emoji
validate_domain https i (create_sticker name description tag attachment) =
    validate_create_sticker i name description tag attachment
validate_domain https i (edit_sticker id name description tag) =
    validate_edit_sticker i id name description tag
validate_domain https i (delete_sticker id) = validate_delete_sticker i id
validate_domain https i (set_timezone zone) = validate_set_timezone i zone
validate_domain https i clear_timezone = validate_clear_timezone i
validate_domain https i (create_check_in mood at) = validate_create_check_in i mood at
validate_domain https i (create_reminder r) = validate_create_reminder i r
validate_domain https i (delete_reminder id) = validate_delete_reminder i id
validate_domain https i (create_warning user reason at) = validate_create_warning i user reason at
validate_domain https i (delete_warning id target) = validate_delete_warning i id target
validate_domain https i (append_audit a) = validate_append_audit i a
