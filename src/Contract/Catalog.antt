-- ===== src/Contract/Catalog.antt =====
-- catalog.go: the signatures of a definition's routes, and the catalog that `Definition.Compile` makes
-- of them. `signatures_of` and its parts list the signatures in the order in which the code adds them.
pub mod Match
pub mod Outcome
pub mod Tally
pub mod Entered
pub mod Counted
pub mod Compiled
pub mod Candidates
pub mod Unambiguous
pub mod Declared
pub mod Clicks
pub mod Replies
pub mod Paths
pub mod Tests
use go_mamacord.Base.{
  ℕ, Bool, true, false, not, ◌&&◌, Option, none, some, List, [], ◌∷◌, ◌++◌, if◌then◌else◌, any,
  is_nil, GoString, Map, lookup, insert,
}
use go_mamacord.Contract.Verdict.{Verdict, Result, ok, error, ◌>>=◌, ◌>>>◌}
use go_mamacord.Contract.Inputs.{
  CommandKind, unknown_command, OptionKind, unknown_option, ComponentKind,
}
use go_mamacord.Contract.Definition.{
  DeferMode, defer_none, CheckKind, custom, CheckDefinition, OptionDefinition, CommandHead,
  CommandDefinition, command_definition, CommandDefinitions, no_commands, more, ListenerDefinition,
  TaskDefinition, ComponentDefinition, ModalFieldDefinition, ModalDefinition, CogDefinition,
  Definition, has_commands, head_of,
}
use go_mamacord.Contract.Definition.Validate.{validate_definition}

pub data RouteType : Type 0 where
  route_command route_autocomplete route_component route_modal : RouteType
  route_listener route_task route_check : RouteType

-- The embedded structs are spread over the record.
pub record RouteSignature : Type 0 where
  pub type : RouteType
  pub route : GoString
  pub defer : DeferMode
  pub command_kind : CommandKind
  pub path : List GoString
  pub options : List OptionDefinition
  pub option_name : GoString
  pub option_kind : OptionKind
  pub component_id : GoString
  pub component_kinds : List ComponentKind
  pub modal_id : GoString
  pub modal_fields : List ModalFieldDefinition
  pub event : GoString
  pub task_id : GoString

-- A signature with the zero value in every other field.
abbrev pub signature_of : RouteType → GoString → RouteSignature
signature_of t r = record {
  type = t;
  route = r;
  defer = defer_none;
  command_kind = unknown_command;
  path = [];
  options = [];
  option_name = [];
  option_kind = unknown_option;
  component_id = [];
  component_kinds = [];
  modal_id = [];
  modal_fields = [];
  event = [];
  task_id = [];
}

abbrev pub is_custom : CheckKind → Bool
is_custom custom = true
is_custom _ = false

-- `addCheck` of each check.
unfoldable pub check_signatures : List CheckDefinition → List RouteSignature
check_signatures [] = []
check_signatures (c ∷ cs) =
    let rest = check_signatures cs in
    if is_custom c.kind then signature_of route_check c.route ∷ rest else rest

abbrev pub command_signature : CommandKind → List GoString → CommandHead → RouteSignature
command_signature root path h = record (signature_of route_command h.route) {
  defer = h.defer;
  command_kind = root;
  path = path;
  options = h.options;
}

abbrev pub autocomplete_signature :
    List GoString → List OptionDefinition → OptionDefinition → RouteSignature
autocomplete_signature path options o = record (signature_of route_autocomplete o.autocomplete) {
  path = path;
  options = options;
  option_name = o.name;
  option_kind = o.kind;
}

-- The loop over the options of a leaf, whose options are the second argument.
unfoldable pub autocomplete_signatures :
    List GoString → List OptionDefinition → List OptionDefinition → List RouteSignature
autocomplete_signatures path options [] = []
autocomplete_signatures path options (o ∷ os) =
    let rest = autocomplete_signatures path options os in
    if is_nil o.autocomplete then rest else autocomplete_signature path options o ∷ rest

unfoldable mutual
  unfolding check_signatures autocomplete_signatures

  -- `addCommand`
  pub command_signatures : CommandKind → List GoString → CommandDefinition → List RouteSignature
  command_signatures root parent (command_definition h cs) =
      let path = parent ++ (h.name ∷ []) in
      let children = children_signatures root path cs in
      check_signatures h.checks
      ++ (if has_commands cs
          then children
          else command_signature root path h ∷ autocomplete_signatures path h.options h.options)

  pub children_signatures : CommandKind → List GoString → CommandDefinitions → List RouteSignature
  children_signatures root path no_commands = []
  children_signatures root path (more c cs) =
      command_signatures root path c ++ children_signatures root path cs

-- The loop over the commands of a cog.
unfoldable pub root_signatures : CommandDefinitions → List RouteSignature
unfolding command_signatures
root_signatures no_commands = []
root_signatures (more c cs) = command_signatures (head_of c).kind [] c ++ root_signatures cs

unfoldable pub listener_signatures : ListenerDefinition → List RouteSignature
unfolding check_signatures
listener_signatures l =
    record (signature_of route_listener l.route) { event = l.event } ∷ check_signatures l.checks

unfoldable pub task_signatures : TaskDefinition → List RouteSignature
unfolding check_signatures
task_signatures k =
    record (signature_of route_task k.route) { task_id = k.id } ∷ check_signatures k.checks

unfoldable pub component_signatures : ComponentDefinition → List RouteSignature
unfolding check_signatures
component_signatures c =
    record (signature_of route_component c.route) {
      defer = c.defer;
      component_id = c.id;
      component_kinds = c.kinds;
    }
    ∷ check_signatures c.checks

unfoldable pub modal_signatures : ModalDefinition → List RouteSignature
unfolding check_signatures
modal_signatures m =
    record (signature_of route_modal m.route) {
      defer = m.defer;
      modal_id = m.id;
      modal_fields = m.fields;
    }
    ∷ check_signatures m.checks

unfoldable pub gather {ℓ κ} : {A : Type ℓ} {B : Type κ} → (A → List B) → List A → List B
gather f [] = []
gather f (x ∷ xs) = f x ++ gather f xs

unfoldable pub cog_signatures : CogDefinition → List RouteSignature
unfolding check_signatures root_signatures listener_signatures task_signatures component_signatures
    modal_signatures gather
cog_signatures c =
    check_signatures c.checks
    ++ (root_signatures c.commands
        ++ (gather listener_signatures c.listeners
            ++ (gather task_signatures c.tasks
                ++ (gather component_signatures c.components ++ gather modal_signatures c.modals))))

unfoldable pub signatures_of : Definition → List RouteSignature
unfolding cog_signatures gather
signatures_of d = gather cog_signatures d.cogs

abbrev pub is_check : RouteType → Bool
is_check route_check = true
is_check _ = false

abbrev pub Catalog : Type 0
Catalog = Map (List RouteSignature)

abbrev pub candidates : GoString → Catalog → List RouteSignature
candidates r c = elim (lookup r c) [ none ↦ [] | some ss ↦ ss ]

-- `RouteCatalog.add`: a route keeps one check signature.
unfoldable pub add : RouteSignature → Catalog → Catalog
add s c =
    let existing = candidates s.route c in
    if is_check s.type && any (λ e. is_check e.type) existing
    then c
    else insert s.route (existing ++ (s ∷ [])) c

unfoldable pub add_all : List RouteSignature → Catalog → Catalog
unfolding add
add_all [] c = c
add_all (s ∷ ss) c = add_all ss (add s c)

module _ (lower : ℕ → ℕ) where
  -- `Definition.Compile`
  unfoldable pub compile : Definition → Result Catalog
  unfolding validate_definition add_all signatures_of
  compile d = validate_definition lower d >>> ok (add_all (signatures_of d) [])
