-- ===== src/Contract/Definition.antt =====
-- definition.go: what a plugin's program declares: cogs of commands, listeners, tasks, components and
-- modals, with their routes and checks.
pub mod Checks
pub mod Options
pub mod Commands
pub mod Validate
use go_mamacord.Base.{
  ℕ, zero, suc, Bool, true, false, Option, none, some, List, [], ◌∷◌, GoString, ℤ,
}
use go_mamacord.Contract.Value.{Float64}
use go_mamacord.Contract.View.{ChannelKind}
use go_mamacord.Contract.Refs.{MemberPermission}
use go_mamacord.Contract.Choices.{ChoiceValue}
use go_mamacord.Contract.Inputs.{CommandKind, OptionKind, ComponentKind}

pub data DeferMode : Type 0 where
  defer_none defer_create defer_update unknown_defer : DeferMode

abbrev pub valid_defer : DeferMode → Bool
valid_defer unknown_defer = false
valid_defer _ = true

pub data CheckKind : Type 0 where
  guild_only owner_only has_permissions custom unknown_check : CheckKind

pub record CheckDefinition : Type 0 where
  pub kind : CheckKind
  pub permissions : List MemberPermission
  pub route : GoString

pub record ChoiceDefinition : Type 0 where
  pub name : GoString
  pub value : ChoiceValue

pub record OptionDefinition : Type 0 where
  pub name : GoString
  pub kind : OptionKind
  pub description : GoString
  pub description_id : GoString
  pub required : Bool
  pub choices : List ChoiceDefinition
  pub autocomplete : GoString
  pub min_integer : Option ℤ
  pub max_integer : Option ℤ
  pub min_number : Option Float64
  pub max_number : Option Float64
  pub min_length : Option ℤ
  pub max_length : Option ℤ
  pub channel_kinds : List ChannelKind

-- A command without its children. The permissions are texts, since they are trimmed before they are
-- looked up.
pub record CommandHead : Type 0 where
  pub kind : CommandKind
  pub route : GoString
  pub name : GoString
  pub description : GoString
  pub description_id : GoString
  pub ephemeral : Bool
  pub defer : DeferMode
  pub default_member_permissions : List GoString
  pub options : List OptionDefinition
  pub checks : List CheckDefinition

mutual
  pub data CommandDefinition : Type 0 where
    command_definition : CommandHead → CommandDefinitions → CommandDefinition

  pub data CommandDefinitions : Type 0 where
    no_commands : CommandDefinitions
    more : CommandDefinition → CommandDefinitions → CommandDefinitions

abbrev pub head_of : CommandDefinition → CommandHead
head_of (command_definition h cs) = h

abbrev pub count_commands : CommandDefinitions → ℕ
count_commands no_commands = 0
count_commands (more c cs) = suc (count_commands cs)

abbrev pub has_commands : CommandDefinitions → Bool
has_commands no_commands = false
has_commands (more c cs) = true

pub record ListenerDefinition : Type 0 where
  pub id : GoString
  pub event : GoString
  pub route : GoString
  pub checks : List CheckDefinition

pub record TaskDefinition : Type 0 where
  pub id : GoString
  pub schedule : GoString
  pub route : GoString
  pub checks : List CheckDefinition

pub record ComponentDefinition : Type 0 where
  pub id : GoString
  pub route : GoString
  pub defer : DeferMode
  pub kinds : List ComponentKind
  pub checks : List CheckDefinition

pub record ModalFieldDefinition : Type 0 where
  pub id : GoString
  pub required : Bool

pub record ModalDefinition : Type 0 where
  pub id : GoString
  pub route : GoString
  pub defer : DeferMode
  pub fields : List ModalFieldDefinition
  pub checks : List CheckDefinition

pub record CogDefinition : Type 0 where
  pub name : GoString
  pub description : GoString
  pub checks : List CheckDefinition
  pub commands : CommandDefinitions
  pub listeners : List ListenerDefinition
  pub tasks : List TaskDefinition
  pub components : List ComponentDefinition
  pub modals : List ModalDefinition

pub record Definition : Type 0 where
  pub cogs : List CogDefinition
