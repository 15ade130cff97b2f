-- ===== src/Contract/Invocation/Validate.antt =====
-- invocation.go: the inputs of an invocation, and `Invocation.Validate`.
use go_mamacord.Base.{
  Bool, true, false, not, ◌||◌, Option, none, some, List, [], ◌∷◌, ltb, ◌==◌, is_nil, length, any,
  GoString, str_eq, trim_space,
}
use go_mamacord.Contract.Verdict.{Verdict, valid, invalid, ◌>>◌, refuse_if}
use go_mamacord.Contract.Value.{encoded_size}
use go_mamacord.Contract.View.{over}
use go_mamacord.Contract.Components.{valid_handler}
use go_mamacord.Contract.Patterns.{is_canonical_route}
use go_mamacord.Contract.Refs.{UserRef, MemberRef, MessageRef, blank_user}
use go_mamacord.Contract.Invocation.Options.{validate_option_value, validate_option_values}
use go_mamacord.Contract.Invocation.Context.{
  max_invocation_value_bytes, size_within, validate_context, validate_state_input, count_inputs,
  has_input, validate_response,
}
use go_mamacord.Contract.Inputs.{
  CommandKind, slash_command, user_command, message_command, OptionKind, string_option, user_option,
  role_option, mentionable_option, channel_option, option_code, ComponentKind, component_button,
  component_string_select, component_user_select, component_role_select,
  component_mentionable_select, component_channel_select, OptionValue, NamedString, CommandInput,
  AutocompleteInput, ComponentInput, ModalInput, EventInput, Invocation, lacks,
}

unfoldable pub validate_path : List GoString → Verdict
validate_path parts =
    refuse_if (is_nil parts || ltb 3 (length parts)) "command path must contain one to three names"
    >> refuse_if (any (λ part. is_nil (trim_space part)) parts)
        "command path contains an empty name"

abbrev pub blank_target : Option UserRef → Bool
blank_target none = true
blank_target (some u) = blank_user u

abbrev pub blank_message : Option MessageRef → Bool
blank_message none = true
blank_message (some m) = is_nil (trim_space m.id)

abbrev pub other_member : Option MemberRef → Option UserRef → Bool
other_member (some m) (some u) = not (str_eq m.user.id u.id)
other_member _ _ = false

abbrev pub validate_command_kind : CommandKind → CommandInput → Verdict
validate_command_kind slash_command c =
    refuse_if
      (not (lacks c.target_user) || (not (lacks c.target_member) || not (lacks c.target_message)))
      "slash command cannot contain a context-command target"
    >> validate_option_values c.options
validate_command_kind user_command c =
    refuse_if (blank_target c.target_user) "user command requires target user"
    >> refuse_if (not (lacks c.target_message) || not (is_nil c.options))
        "user command cannot contain message target or options"
    >> refuse_if (other_member c.target_member c.target_user)
        "target member does not match target user"
validate_command_kind message_command c =
    refuse_if (blank_message c.target_message) "message command requires target message"
    >> refuse_if
        (not (lacks c.target_user) || (not (lacks c.target_member) || not (is_nil c.options)))
        "message command cannot contain user target or options"
validate_command_kind _ c = invalid "invocation has unsupported command kind"

unfoldable pub validate_command_input : Option CommandInput → Verdict
unfolding validate_path
validate_command_input none = valid
validate_command_input (some c) = validate_path c.path >> validate_command_kind c.kind c

unfoldable pub validate_autocomplete_input : Option AutocompleteInput → Verdict
unfolding validate_path
validate_autocomplete_input none = valid
validate_autocomplete_input (some a) =
    validate_path a.path
    >> refuse_if (is_nil (trim_space a.option)) "autocomplete option is required"
    >> validate_option_value a.focused
    >> refuse_if (not (str_eq a.focused.name a.option))
        "focused option name does not match autocomplete option"
    >> validate_option_values a.options

-- The kind of the values that a select gives; a button gives none.
abbrev pub selected_kind : ComponentKind → Option OptionKind
selected_kind component_string_select = some string_option
selected_kind component_user_select = some user_option
selected_kind component_role_select = some role_option
selected_kind component_mentionable_select = some mentionable_option
selected_kind component_channel_select = some channel_option
selected_kind _ = none

abbrev pub validate_selected : Option OptionKind → List OptionValue → Verdict
validate_selected none vs = invalid "unsupported component kind"
validate_selected (some k) vs =
    validate_option_values vs
    >> refuse_if (any (λ v. not (option_code v.kind == option_code k)) vs)
        "component value has another kind"

abbrev pub validate_component_values : ComponentKind → List OptionValue → Verdict
validate_component_values component_button vs =
    refuse_if (not (is_nil vs)) "button input cannot contain selected values"
validate_component_values k vs = validate_selected (selected_kind k) vs

unfoldable pub validate_component_input : Option ComponentInput → Verdict
validate_component_input none = valid
validate_component_input (some c) =
    refuse_if (not (valid_handler c.id)) "component id is not canonical"
    >> refuse_if (ltb 25 (length c.values)) "component input exceeds 25 selected values"
    >> validate_component_values c.kind c.values

unfoldable pub validate_named_strings : List GoString → List NamedString → Verdict
validate_named_strings seen [] = valid
validate_named_strings seen (f ∷ fs) =
    refuse_if (not (valid_handler f.name)) "modal field name is not canonical"
    >> refuse_if (over f.value 4000)
        "modal field value must be valid UTF-8 and at most 4000 characters"
    >> refuse_if (any (str_eq f.name) seen) "duplicate modal field"
    >> validate_named_strings (f.name ∷ seen) fs

unfoldable pub validate_modal_input : Option ModalInput → Verdict
unfolding validate_named_strings
validate_modal_input none = valid
validate_modal_input (some m) =
    refuse_if (not (valid_handler m.id)) "modal id is not canonical"
    >> refuse_if (is_nil m.fields || ltb 5 (length m.fields))
        "modal input must contain 1 to 5 fields"
    >> validate_named_strings [] m.fields

unfoldable pub validate_event_input : Option EventInput → Verdict
validate_event_input none = valid
validate_event_input (some e) =
    refuse_if (is_nil (trim_space e.name)) "event name is required"
    >> size_within (encoded_size e.payload) max_invocation_value_bytes

unfoldable pub validate_task_input : Option GoString → Verdict
validate_task_input none = valid
validate_task_input (some id) = refuse_if (is_nil (trim_space id)) "task id is required"

unfoldable pub validate_invocation : Invocation → Verdict
unfolding validate_context validate_state_input validate_response validate_command_input
    validate_autocomplete_input validate_component_input validate_modal_input validate_event_input
    validate_task_input
validate_invocation i =
    refuse_if (is_nil (trim_space i.plugin_id)) "plugin id is required"
    >> refuse_if (is_nil (trim_space i.generation)) "generation id is required"
    >> refuse_if (not (is_canonical_route i.route)) "route id is not canonical"
    >> validate_context i
    >> validate_state_input i
    >> refuse_if (not (count_inputs i == 1)) "invocation must contain exactly one route input"
    >> refuse_if (not (has_input i.kind i)) "invocation kind does not match its route input"
    >> validate_response i
    >> validate_command_input i.command
    >> validate_autocomplete_input i.autocomplete
    >> validate_component_input i.component
    >> validate_modal_input i.modal
    >> validate_event_input i.event
    >> validate_task_input i.task
