-- ===== src/Contract/Invocation/Options.antt =====
-- invocation.go: the validation of option values. A reference that is nil where its kind wants it is
-- refused by `require_only_matching_reference`; what follows would dereference it.
use go_mamacord.Base.{
  ℕ, ◌+◌, Bool, true, false, not, ◌&&◌, ◌||◌, Option, none, some, List, [], ◌∷◌, ltb, ◌==◌, is_nil,
  length, any, GoString, str_eq, trim_space, is_below, is_zero_ℤ,
}
use go_mamacord.Contract.Verdict.{Verdict, valid, invalid, ◌>>◌, refuse_if}
use go_mamacord.Contract.Value.{is_nonzero}
use go_mamacord.Contract.View.{over}
use go_mamacord.Contract.Components.{valid_channel_kind}
use go_mamacord.Contract.Patterns.{valid_slash_name}
use go_mamacord.Contract.Refs.{
  UserRef, ChannelRef, RoleRef, MentionableRef, AttachmentRef, blank_user, validate_role_ref,
  validate_mentionable,
}
use go_mamacord.Contract.Inputs.{
  OptionKind, string_option, bool_option, int_option, float_option, user_option, channel_option,
  role_option, mentionable_option, attachment_option, OptionValue, valid_option_kind, lacks,
}

abbrev pub one_unless : Bool → ℕ
one_unless true = 0
one_unless false = 1

abbrev pub count_references : OptionValue → ℕ
count_references v =
    one_unless (lacks v.user)
    + one_unless (lacks v.channel)
    + one_unless (lacks v.role)
    + one_unless (lacks v.mentionable)
    + one_unless (lacks v.attachment)

-- Whether the reference of the kind is missing; a scalar kind has none.
abbrev pub expects_reference : OptionKind → Bool
expects_reference user_option = true
expects_reference channel_option = true
expects_reference role_option = true
expects_reference mentionable_option = true
expects_reference attachment_option = true
expects_reference _ = false

abbrev pub lacks_reference : OptionKind → OptionValue → Bool
lacks_reference user_option v = lacks v.user
lacks_reference channel_option v = lacks v.channel
lacks_reference role_option v = lacks v.role
lacks_reference mentionable_option v = lacks v.mentionable
lacks_reference attachment_option v = lacks v.attachment
lacks_reference _ v = false

unfoldable pub require_only_matching_reference : OptionValue → Verdict
require_only_matching_reference v =
    refuse_if (expects_reference v.kind && not (count_references v == 1))
      "option must contain exactly one reference"
    >> refuse_if (not (expects_reference v.kind) && not (count_references v == 0))
        "scalar option cannot contain a reference"
    >> refuse_if (lacks_reference v.kind v) "option contains the wrong reference kind"

abbrev pub validate_scalars : OptionKind → OptionValue → Verdict
validate_scalars string_option v =
    refuse_if (over v.string 6000) "string option must be valid UTF-8 and at most 6000 characters"
    >> refuse_if (v.boolean || (not (is_zero_ℤ v.integer) || is_nonzero v.number))
        "string option contains inactive scalar payload"
validate_scalars bool_option v =
    refuse_if (not (is_nil v.string) || (not (is_zero_ℤ v.integer) || is_nonzero v.number))
      "boolean option contains inactive scalar payload"
validate_scalars int_option v =
    refuse_if (not (is_nil v.string) || (v.boolean || is_nonzero v.number))
      "integer option contains inactive scalar payload"
validate_scalars float_option v =
    refuse_if (not v.number.finite) "option number must be finite"
    >> refuse_if (not (is_nil v.string) || (v.boolean || not (is_zero_ℤ v.integer)))
        "number option contains inactive scalar payload"
validate_scalars _ v =
    refuse_if
      (not (is_nil v.string) || (v.boolean || (not (is_zero_ℤ v.integer) || is_nonzero v.number)))
      "reference option contains inactive scalar payload"

abbrev pub validate_user_option : Option UserRef → Verdict
validate_user_option none = invalid "nil user"
validate_user_option (some u) = refuse_if (blank_user u) "user option has no user id"

abbrev pub validate_channel_option : Option ChannelRef → Verdict
validate_channel_option none = invalid "nil channel"
validate_channel_option (some c) =
    refuse_if (is_nil (trim_space c.id)) "channel option has no channel id"
    >> refuse_if (not (valid_channel_kind c.kind)) "channel option has unsupported channel kind"

abbrev pub validate_role_option : Option RoleRef → Verdict
validate_role_option none = invalid "nil role"
validate_role_option (some r) = validate_role_ref r

abbrev pub validate_mentionable_option : Option MentionableRef → Verdict
validate_mentionable_option none = invalid "nil mentionable"
validate_mentionable_option (some m) = validate_mentionable m

abbrev pub validate_attachment_option : Option AttachmentRef → Verdict
validate_attachment_option none = invalid "nil attachment"
validate_attachment_option (some a) =
    refuse_if (is_nil (trim_space a.id) || is_nil (trim_space a.filename))
      "attachment option requires id and filename"
    >> refuse_if (is_below a.size 0) "attachment option has negative size"

abbrev pub validate_option_reference : OptionKind → OptionValue → Verdict
validate_option_reference user_option v = validate_user_option v.user
validate_option_reference channel_option v = validate_channel_option v.channel
validate_option_reference role_option v = validate_role_option v.role
validate_option_reference mentionable_option v = validate_mentionable_option v.mentionable
validate_option_reference attachment_option v = validate_attachment_option v.attachment
validate_option_reference _ v = valid

unfoldable pub validate_option_value : OptionValue → Verdict
unfolding require_only_matching_reference
validate_option_value v =
    refuse_if (not (str_eq v.name (trim_space v.name)) || not (valid_slash_name v.name))
      "option value name is not canonical"
    >> refuse_if (not (valid_option_kind v.kind)) "unsupported option value kind"
    >> require_only_matching_reference v
    >> validate_scalars v.kind v
    >> validate_option_reference v.kind v

-- The loop over the values, with the names seen.
unfoldable pub validate_value_list : List GoString → List OptionValue → Verdict
unfolding validate_option_value
validate_value_list seen [] = valid
validate_value_list seen (v ∷ vs) =
    validate_option_value v
    >> refuse_if (any (str_eq v.name) seen) "duplicate option value"
    >> validate_value_list (v.name ∷ seen) vs

unfoldable pub validate_option_values : List OptionValue → Verdict
unfolding validate_value_list
validate_option_values vs =
    refuse_if (ltb 25 (length vs)) "invocation exceeds 25 option values"
    >> validate_value_list [] vs
