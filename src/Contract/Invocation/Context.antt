-- ===== src/Contract/Invocation/Context.antt =====
-- invocation.go: the context and the state of an invocation, and its response state.
use go_mamacord.Base.{
  ℕ, ◌+◌, Bool, true, false, not, ◌&&◌, Option, none, some, List, [], ◌∷◌, ltb, if◌then◌else◌,
  is_nil, length, any, GoString, str_eq, trim_space,
}
use go_mamacord.Contract.Verdict.{Verdict, valid, invalid, ◌>>◌, refuse_if}
use go_mamacord.Contract.Value.{
  Sized, sized, failed, encoded_size, max_value_items, max_state_value_bytes,
}
use go_mamacord.Contract.Components.{valid_channel_kind}
use go_mamacord.Contract.Refs.{
  UserRef, GuildRef, ChannelRef, MemberRef, blank_user, validate_permissions,
}
use go_mamacord.Contract.Invocation.{valid_kv_key}
use go_mamacord.Contract.Invocation.Options.{one_unless}
use go_mamacord.Contract.Inputs.{
  InvocationKind, command, autocomplete, component, modal, event, task, check, unknown_invocation,
  ResponseState, no_response, unacknowledged, deferred_update, unknown_state, ModalOrigin,
  no_origin, from_command, from_component, StateEntry, Invocation, lacks, is_kind, in_state,
}

abbrev pub max_invocation_value_bytes : ℕ
max_invocation_value_bytes = 65536

abbrev pub blank_guild_id : Option GuildRef → Bool
blank_guild_id none = false
blank_guild_id (some g) = is_nil (trim_space g.id)

abbrev pub other_guild : Option GuildRef → GoString → Bool
other_guild none id = false
other_guild (some g) id = not (is_nil id) && not (str_eq id g.id)

abbrev pub validate_channel_context : Option GuildRef → Option ChannelRef → Verdict
validate_channel_context g none = valid
validate_channel_context g (some c) =
    refuse_if (is_nil (trim_space c.id)) "channel id is required"
    >> refuse_if (not (valid_channel_kind c.kind)) "unsupported channel kind"
    >> refuse_if (other_guild g c.guild_id) "channel guild does not match invocation guild"

unfoldable pub validate_role_ids : List GoString → List GoString → Verdict
validate_role_ids seen [] = valid
validate_role_ids seen (r ∷ rs) =
    refuse_if (is_nil (trim_space r)) "member role id is required"
    >> refuse_if (any (str_eq r) seen) "member repeats role"
    >> validate_role_ids (r ∷ seen) rs

abbrev pub is_author : Option UserRef → GoString → Bool
is_author none id = false
is_author (some u) id = str_eq id u.id

abbrev pub validate_member : Option GuildRef → Option UserRef → Option MemberRef → Verdict
validate_member g author none = valid
validate_member none author (some m) = invalid "member context requires guild"
validate_member (some g) author (some m) =
    refuse_if (not (str_eq m.guild_id g.id)) "member guild does not match invocation guild"
    >> refuse_if (not (is_author author m.user.id)) "member user does not match invocation author"
    >> validate_role_ids [] m.role_ids
    >> validate_permissions [] m.permissions

abbrev pub is_interactive : InvocationKind → Bool
is_interactive command = true
is_interactive autocomplete = true
is_interactive component = true
is_interactive modal = true
is_interactive check = true
is_interactive _ = false

abbrev pub blank_author : Option UserRef → Bool
blank_author none = false
blank_author (some u) = blank_user u

unfoldable pub validate_context : Invocation → Verdict
unfolding validate_role_ids
validate_context i =
    refuse_if (blank_guild_id i.guild) "guild id is required"
    >> validate_channel_context i.guild i.channel
    >> refuse_if (blank_author i.author) "author id is required"
    >> validate_member i.guild i.author i.member
    >> refuse_if (is_interactive i.kind && lacks i.author) "interactive invocation requires author"

abbrev pub size_of : Sized → ℕ
size_of (sized n k) = n
size_of (failed e) = 0

-- `EncodedSize` and the bound on it; the texts leave out what the value is.
abbrev pub size_within : Sized → ℕ → Verdict
size_within (sized n k) most = refuse_if (ltb most n) "value exceeds its bytes"
size_within (failed e) most = invalid "value is invalid"

unfoldable pub validate_entries : List GoString → ℕ → List StateEntry → Verdict
validate_entries seen total [] = valid
validate_entries seen total (e ∷ es) =
    let size = encoded_size e.value in
    refuse_if (not (valid_kv_key e.key)) "state key is not canonical"
    >> refuse_if (any (str_eq e.key) seen) "duplicate state key"
    >> size_within size max_state_value_bytes
    >> refuse_if (ltb max_invocation_value_bytes (total + size_of size))
        "state input exceeds aggregate bytes"
    >> validate_entries (e.key ∷ seen) (total + size_of size) es

unfoldable pub validate_state_input : Invocation → Verdict
unfolding validate_entries
validate_state_input i =
    if is_nil i.state
    then valid
    else (refuse_if (lacks i.guild) "state input requires guild context"
        >> refuse_if (ltb max_value_items (length i.state)) "state input exceeds its entries"
        >> validate_entries [] 0 i.state)

abbrev pub count_inputs : Invocation → ℕ
count_inputs i =
    one_unless (lacks i.command)
    + one_unless (lacks i.autocomplete)
    + one_unless (lacks i.component)
    + one_unless (lacks i.modal)
    + one_unless (lacks i.event)
    + one_unless (lacks i.task)
    + one_unless (lacks i.check)

-- Whether the input of the kind is there.
abbrev pub has_input : InvocationKind → Invocation → Bool
has_input command i = not (lacks i.command)
has_input autocomplete i = not (lacks i.autocomplete)
has_input component i = not (lacks i.component)
has_input modal i = not (lacks i.modal)
has_input event i = not (lacks i.event)
has_input task i = not (lacks i.task)
has_input check i = not (lacks i.check)
has_input unknown_invocation i = false

-- The response states that an interaction may be in.
abbrev pub is_interaction_state : ResponseState → Bool
is_interaction_state no_response = false
is_interaction_state unknown_state = false
is_interaction_state _ = true

abbrev pub is_interaction : InvocationKind → Bool
is_interaction command = true
is_interaction autocomplete = true
is_interaction component = true
is_interaction modal = true
is_interaction _ = false

abbrev pub is_from : ModalOrigin → Bool
is_from from_component = true
is_from _ = false

abbrev pub is_modal_origin : ModalOrigin → Bool
is_modal_origin from_command = true
is_modal_origin from_component = true
is_modal_origin _ = false

abbrev pub is_no_origin : ModalOrigin → Bool
is_no_origin no_origin = true
is_no_origin _ = false

-- The tests of the response state and of the origin of a modal.
unfoldable pub validate_response : Invocation → Verdict
validate_response i =
    refuse_if (is_interaction i.kind && not (is_interaction_state i.response_state))
      "interaction has invalid response state"
    >> refuse_if (not (is_interaction i.kind) && not (in_state no_response i))
        "automation invocation cannot have interaction response state"
    >> refuse_if (is_kind command i && in_state deferred_update i)
        "command cannot have deferred-update state"
    >> refuse_if (is_kind autocomplete i && not (in_state unacknowledged i))
        "autocomplete must be unacknowledged"
    >> refuse_if (is_kind modal i && (in_state deferred_update i && not (is_from i.modal_origin)))
        "command-origin modal cannot have deferred-update state"
    >> refuse_if (is_kind modal i && not (is_modal_origin i.modal_origin))
        "modal invocation requires command or component origin"
    >> refuse_if (not (is_kind modal i) && not (is_no_origin i.modal_origin))
        "modal origin is only valid for modal invocations"
