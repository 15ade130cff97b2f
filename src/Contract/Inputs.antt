-- ===== src/Contract/Inputs.antt =====
-- invocation.go: invocations and their inputs. A pointer is an Option; an embedded struct is spread
-- over the record that embeds it.
use go_mamacord.Base.{ℕ, Bool, true, false, Option, none, some, List, ◌==◌, GoString, ℤ}
use go_mamacord.Contract.Value.{Value, Float64}
use go_mamacord.Contract.Refs.{
  UserRef, RuntimeRef, GuildRef, ChannelRef, RoleRef, MemberRef, MentionableRef, AttachmentRef,
  MessageRef,
}

pub data CommandKind : Type 0 where
  slash_command user_command message_command group_command subcommand unknown_command : CommandKind

pub data OptionKind : Type 0 where
  string_option bool_option int_option float_option user_option : OptionKind
  channel_option role_option mentionable_option attachment_option unknown_option : OptionKind

pub data ResponseState : Type 0 where
  no_response unacknowledged deferred_create deferred_update responded unknown_state : ResponseState

pub data ModalOrigin : Type 0 where
  no_origin from_command from_component unknown_origin : ModalOrigin

pub data ComponentKind : Type 0 where
  component_button component_string_select component_user_select component_role_select :
      ComponentKind
  component_mentionable_select component_channel_select unknown_component : ComponentKind

pub data InvocationKind : Type 0 where
  command autocomplete component modal event task check unknown_invocation : InvocationKind

abbrev pub command_code : CommandKind → ℕ
command_code slash_command = 0
command_code user_command = 1
command_code message_command = 2
command_code group_command = 3
command_code subcommand = 4
command_code unknown_command = 5

abbrev pub option_code : OptionKind → ℕ
option_code string_option = 0
option_code bool_option = 1
option_code int_option = 2
option_code float_option = 3
option_code user_option = 4
option_code channel_option = 5
option_code role_option = 6
option_code mentionable_option = 7
option_code attachment_option = 8
option_code unknown_option = 9

abbrev pub component_code : ComponentKind → ℕ
component_code component_button = 0
component_code component_string_select = 1
component_code component_user_select = 2
component_code component_role_select = 3
component_code component_mentionable_select = 4
component_code component_channel_select = 5
component_code unknown_component = 6

abbrev pub valid_component_kind : ComponentKind → Bool
valid_component_kind unknown_component = false
valid_component_kind _ = true

abbrev pub valid_option_kind : OptionKind → Bool
valid_option_kind unknown_option = false
valid_option_kind _ = true

pub record OptionValue : Type 0 where
  pub name : GoString
  pub kind : OptionKind
  pub string : GoString
  pub boolean : Bool
  pub integer : ℤ
  pub number : Float64
  pub user : Option UserRef
  pub channel : Option ChannelRef
  pub role : Option RoleRef
  pub mentionable : Option MentionableRef
  pub attachment : Option AttachmentRef

pub record NamedString : Type 0 where
  pub name : GoString
  pub value : GoString

pub record CommandInput : Type 0 where
  pub kind : CommandKind
  pub path : List GoString
  pub options : List OptionValue
  pub target_user : Option UserRef
  pub target_member : Option MemberRef
  pub target_message : Option MessageRef

pub record AutocompleteInput : Type 0 where
  pub path : List GoString
  pub option : GoString
  pub focused : OptionValue
  pub options : List OptionValue

pub record ComponentInput : Type 0 where
  pub id : GoString
  pub kind : ComponentKind
  pub values : List OptionValue

pub record ModalInput : Type 0 where
  pub id : GoString
  pub fields : List NamedString

pub record EventInput : Type 0 where
  pub name : GoString
  pub payload : Value

pub record StateEntry : Type 0 where
  pub key : GoString
  pub value : Value
  pub version : ℕ

-- `task` and `check` are the ids of the inputs.
pub record Invocation : Type 0 where
  pub plugin_id : GoString
  pub generation : GoString
  pub route : GoString
  pub kind : InvocationKind
  pub guild : Option GuildRef
  pub channel : Option ChannelRef
  pub author : Option UserRef
  pub bot_user : Option UserRef
  pub member : Option MemberRef
  pub locale : GoString
  pub now_unix : ℤ
  pub random_seed : ℕ
  pub runtime : RuntimeRef
  pub state : List StateEntry
  pub is_owner : Bool
  pub response_state : ResponseState
  pub modal_origin : ModalOrigin
  pub command : Option CommandInput
  pub autocomplete : Option AutocompleteInput
  pub component : Option ComponentInput
  pub modal : Option ModalInput
  pub event : Option EventInput
  pub task : Option GoString
  pub check : Option GoString

abbrev pub lacks {ℓ} : {A : Type ℓ} → Option A → Bool
lacks none = true
lacks (some a) = false

abbrev pub kind_code : InvocationKind → ℕ
kind_code command = 0
kind_code autocomplete = 1
kind_code component = 2
kind_code modal = 3
kind_code event = 4
kind_code task = 5
kind_code check = 6
kind_code unknown_invocation = 7

abbrev pub state_code : ResponseState → ℕ
state_code no_response = 0
state_code unacknowledged = 1
state_code deferred_create = 2
state_code deferred_update = 3
state_code responded = 4
state_code unknown_state = 5

abbrev pub is_kind : InvocationKind → Invocation → Bool
is_kind k i = kind_code i.kind == kind_code k

abbrev pub in_state : ResponseState → Invocation → Bool
in_state s i = state_code i.response_state == state_code s
