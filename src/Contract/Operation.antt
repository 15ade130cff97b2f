-- ===== src/Contract/Operation.antt =====
-- operation.go and capability.go: the operations of a plugin's outcome, the validation of an outcome,
-- and the capabilities that an operation needs. A nil operation is `none`. `validate_operations` is
-- `Outcome.Validate` after the invocation itself has been validated.
pub mod Laws
pub mod Scope
pub mod Tests
use go_mamacord.Base.{
  ℕ, Bool, true, false, not, ◌&&◌, ◌||◌, Option, none, some, String, List, [], ◌∷◌, ltb, leb, ◌==◌,
  if◌then◌else◌, is_nil, length, any, GoString, str_eq, trim_space,
}
use go_mamacord.Contract.Value.{Value, validate_state}
use go_mamacord.Contract.Verdict.{Verdict, valid, invalid, ◌>>◌, refuse_if}
use go_mamacord.Contract.View.{Message, MessagePatch, ModalView, over}
use go_mamacord.Contract.Components.{validate_message, validate_patch, validate_modal}
use go_mamacord.Contract.Inputs.{
  AutocompleteInput, is_kind, in_state, Invocation, InvocationKind, command, autocomplete,
  component, modal, event, task, check, ResponseState, unacknowledged, deferred_create,
  deferred_update, no_response, responded, ModalOrigin, from_component, no_origin, from_command,
  OptionKind, string_option, int_option, float_option,
}
use go_mamacord.Contract.Invocation.{validate_kv_scope}
use go_mamacord.Contract.Choices.{AutocompleteChoice, validate_choices}
use go_mamacord.Contract.Domain.{
  DomainOperation, send_channel, send_dm, timeout_member, set_slowmode, set_nickname,
  purge_messages, create_role, edit_role, delete_role, member_role, create_emoji, edit_emoji,
  delete_emoji, create_sticker, edit_sticker, delete_sticker, set_timezone, clear_timezone,
  create_check_in, create_reminder, delete_reminder, create_warning, delete_warning, append_audit,
}
use go_mamacord.Contract.DomainRules.{validate_domain, state_verdict}

pub data Operation : Type 0 where
  message : Message → Bool → Operation
  update : MessagePatch → Operation
  edit_response : MessagePatch → Operation
  open_modal : ModalView → Operation
  choices : List AutocompleteChoice → Operation
  kv_put : GoString → Value → Option ℕ → Operation
  kv_delete : GoString → Option ℕ → Operation
  best_effort : Operation → Operation
  guarded : Operation → Operation → Operation
  domain : DomainOperation → Operation

pub data Capability : Type 0 where
  storage_kv storage_user_settings storage_check_ins storage_reminders storage_warnings : Capability
  storage_audit discord_users discord_guilds discord_messages discord_members : Capability
  discord_channels discord_roles discord_emojis discord_stickers network_http : Capability
  resources_read : Capability

unfoldable pub domain_capabilities : DomainOperation → List Capability
domain_capabilities (set_timezone _) = storage_user_settings ∷ []
domain_capabilities clear_timezone = storage_user_settings ∷ []
domain_capabilities (create_check_in _ _) = storage_check_ins ∷ []
domain_capabilities (create_reminder _) = storage_reminders ∷ []
domain_capabilities (delete_reminder _) = storage_reminders ∷ []
domain_capabilities (create_warning _ _ _) = storage_warnings ∷ []
domain_capabilities (delete_warning _ _) = storage_warnings ∷ []
domain_capabilities (append_audit _) = storage_audit ∷ []
domain_capabilities (send_channel _ _) = discord_messages ∷ []
domain_capabilities (send_dm _ _) = discord_messages ∷ []
domain_capabilities (purge_messages _ _ _ _) = discord_messages ∷ []
domain_capabilities (timeout_member _ _) = discord_members ∷ []
domain_capabilities (set_nickname _ _) = discord_members ∷ []
domain_capabilities (set_slowmode _ _) = discord_channels ∷ []
domain_capabilities (create_role _ _ _ _) = discord_roles ∷ []
domain_capabilities (edit_role _ _ _ _ _) = discord_roles ∷ []
domain_capabilities (delete_role _) = discord_roles ∷ []
domain_capabilities (member_role _ _ _) = discord_roles ∷ []
domain_capabilities (create_emoji _ _) = discord_emojis ∷ []
domain_capabilities (edit_emoji _ _) = discord_emojis ∷ []
domain_capabilities (delete_emoji _) = discord_emojis ∷ []
domain_capabilities (create_sticker _ _ _ _) = discord_stickers ∷ []
domain_capabilities (edit_sticker _ _ _ _) = discord_stickers ∷ []
domain_capabilities (delete_sticker _) = discord_stickers ∷ []

unfoldable pub required_capabilities : Operation → List Capability
unfolding domain_capabilities
required_capabilities (guarded operation failure) = required_capabilities operation
required_capabilities (best_effort operation) = required_capabilities operation
required_capabilities (kv_put _ _ _) = storage_kv ∷ []
required_capabilities (kv_delete _ _) = storage_kv ∷ []
required_capabilities (domain d) = domain_capabilities d
required_capabilities (message _ _) = []
required_capabilities (update _) = []
required_capabilities (edit_response _) = []
required_capabilities (open_modal _) = []
required_capabilities (choices _) = []

abbrev pub is_from_component : ModalOrigin → Bool
is_from_component from_component = true
is_from_component _ = false

-- `allowedInitial || allowedDeferred` for an update.
abbrev pub update_allowed : Invocation → Bool
update_allowed i =
    (in_state unacknowledged i
      && (is_kind component i || (is_kind modal i && is_from_component i.modal_origin)))
    || (in_state deferred_update i && (is_kind component i || is_kind modal i))

-- An autocompletion without its input, which `Invocation.Validate` refuses, dereferences nil.
abbrev pub validate_choices_for : Option AutocompleteInput → List AutocompleteChoice → Verdict
validate_choices_for none cs = invalid "nil autocomplete input"
validate_choices_for (some a) cs = validate_choices a.focused.kind cs

-- The operations that answer the interaction, after which no other may follow.
abbrev pub is_terminal : Operation → Bool
is_terminal (message m ephemeral) = true
is_terminal (update p) = true
is_terminal (edit_response p) = true
is_terminal (open_modal m) = true
is_terminal (choices cs) = true
is_terminal _ = false

abbrev pub is_choices : Operation → Bool
is_choices (choices cs) = true
is_choices _ = false

-- The interactions that must be answered, in the states in which they can be.
abbrev pub requires_terminal : Invocation → Bool
requires_terminal i =
    (is_kind command i || is_kind component i || is_kind modal i)
    && (in_state unacknowledged i || in_state deferred_create i || in_state deferred_update i)

-- The tests after the loop of `Outcome.Validate`.
unfoldable pub validate_end : Invocation → Bool → Bool → Verdict
validate_end i terminal chosen =
    refuse_if (requires_terminal i && not terminal)
      "interaction outcome requires a terminal response"
    >> refuse_if (is_kind autocomplete i && not chosen) "autocomplete outcome requires choices"

module _ (is_https : GoString → Bool) where
  unfoldable pub validate_best_effort : Invocation → Operation → Verdict
  validate_best_effort i (domain d) = validate_domain is_https i d
  validate_best_effort i _ = invalid "operation cannot be best-effort"

  unfoldable pub validate_guarded_operation : Invocation → Operation → Verdict
  validate_guarded_operation i (domain d) = validate_domain is_https i d
  validate_guarded_operation i (kv_put key v expected) =
      validate_kv_scope i key >> state_verdict (validate_state v)
  validate_guarded_operation i (kv_delete key expected) = validate_kv_scope i key
  validate_guarded_operation i _ = invalid "operation cannot be guarded"

  unfoldable pub validate_failure : Invocation → Operation → Verdict
  validate_failure i (message m ephemeral) =
      refuse_if
        (not (in_state unacknowledged i)
          || not (is_kind command i) && not (is_kind component i) && not (is_kind modal i))
        "guarded failure message requires unacknowledged interaction"
      >> validate_message is_https m
  validate_failure i (edit_response p) =
      refuse_if (not (in_state deferred_create i))
        "guarded failure edit requires deferred-create response"
      >> validate_patch is_https p
  validate_failure i (update p) =
      refuse_if (not (update_allowed i)) "guarded failure update is invalid for invocation"
      >> validate_patch is_https p
  validate_failure i _ = invalid "guarded failure is not a response operation"

  -- The body of the loop of `Outcome.Validate` on one operation.
  unfoldable pub validate_operation : Invocation → Operation → Verdict
  unfolding validate_best_effort validate_guarded_operation validate_failure
  validate_operation i (message m ephemeral) =
      refuse_if
        (not (in_state unacknowledged i)
          || is_kind autocomplete i
          || is_kind event i
          || is_kind task i)
        "message operation is invalid"
      >> validate_message is_https m
  validate_operation i (update p) =
      refuse_if (not (update_allowed i)) "update operation is invalid" >> validate_patch is_https p
  validate_operation i (edit_response p) =
      refuse_if (not (in_state deferred_create i)) "edit response requires deferred-create state"
      >> validate_patch is_https p
  validate_operation i (open_modal m) =
      refuse_if
        (not (in_state unacknowledged i) || not (is_kind command i) && not (is_kind component i))
        "modal operation is invalid"
      >> validate_modal m
  validate_operation i (choices cs) =
      refuse_if (not (is_kind autocomplete i) || not (in_state unacknowledged i))
        "choices require unacknowledged autocomplete invocation"
      >> validate_choices_for i.autocomplete cs
  validate_operation i (kv_put key v expected) =
      validate_kv_scope i key >> state_verdict (validate_state v)
  validate_operation i (kv_delete key expected) = validate_kv_scope i key
  validate_operation i (best_effort o) = validate_best_effort i o
  validate_operation i (guarded o failure) =
      validate_guarded_operation i o >> validate_failure i failure
  validate_operation i (domain d) =
      refuse_if (is_kind autocomplete i) "domain operation is invalid for autocomplete"
      >> validate_domain is_https i d

  -- The loop, with what it knows of the operations so far.
  unfoldable pub validate_from : Invocation → Bool → Bool → List (Option Operation) → Verdict
  validate_from i terminal chosen [] = validate_end i terminal chosen
  validate_from i terminal chosen (none ∷ os) = invalid "operation is nil"
  validate_from i terminal chosen (some o ∷ os) =
      refuse_if terminal "operation follows a terminal interaction response"
      >> (validate_operation i o
          >> validate_from i (terminal || is_terminal o) (chosen || is_choices o) os)

  unfoldable pub validate_operations : Invocation → List (Option Operation) → Verdict
  validate_operations i os =
      refuse_if (ltb 25 (length os)) "outcome exceeds 25 operations"
      >> validate_from i false false os
