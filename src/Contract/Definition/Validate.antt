-- ===== src/Contract/Definition/Validate.antt =====
-- definition.go: `Definition.Validate`, and the ids and routes it has seen so far.
use go_mamacord.Base.{
  ℕ, not, ◌||◌, List, [], ◌∷◌, ltb, ◌==◌, is_nil, length, any, GoString, str_eq, trim_space,
  to_lower,
}
use go_mamacord.Contract.Verdict.{
  Verdict, valid, ◌>>◌, refuse_if, Result, ok, ◌>>=◌, ◌>>>◌, for_each, verdict_of,
}
use go_mamacord.Contract.View.{over}
use go_mamacord.Contract.Components.{valid_handler}
use go_mamacord.Contract.Inputs.{CommandKind, ComponentKind, component_code, valid_component_kind}
use go_mamacord.Contract.Definition.{
  valid_defer, CommandDefinition, CommandDefinitions, no_commands, more, head_of,
  ListenerDefinition, TaskDefinition, ComponentDefinition, ModalFieldDefinition, ModalDefinition,
  CogDefinition, Definition,
}
use go_mamacord.Contract.Definition.Checks.{Routes, validate_checks, validate_named_route}
use go_mamacord.Contract.Definition.Commands.{
  CommandTables, validate_command, count_kind, limit_of, is_top_level,
}

-- The tables of the routes and the paths, the kinds of the commands, and the names and ids seen.
pub record Tables : Type 0 where
  pub commands : CommandTables
  pub cog_names : List GoString
  pub kinds : List CommandKind
  pub listeners : List GoString
  pub tasks : List GoString
  pub components : List GoString
  pub modals : List GoString

abbrev pub no_tables : Tables
no_tables = record {
  commands = record { routes = []; paths = [] };
  cog_names = [];
  kinds = [];
  listeners = [];
  tasks = [];
  components = [];
  modals = [];
}

abbrev pub routes_of : Tables → Routes
routes_of t = t.commands.routes

abbrev pub with_routes : Routes → Tables → Tables
with_routes r t = record t { commands = record (t.commands) { routes = r } }

unfoldable pub validate_listener : ListenerDefinition → Tables → Result Tables
validate_listener l t = validate_named_route l.id l.route t.listeners (routes_of t) >>= λ named.
    refuse_if (is_nil (trim_space l.event)) "listener event is required"
    >>> (validate_checks l.checks named.1 >>= λ r.
        ok (record (with_routes r t) { listeners = named.0 }))

unfoldable pub validate_task : TaskDefinition → Tables → Result Tables
validate_task k t = validate_named_route k.id k.route t.tasks (routes_of t) >>= λ named.
    refuse_if (is_nil (trim_space k.schedule)) "task schedule is required"
    >>> (validate_checks k.checks named.1 >>= λ r.
        ok (record (with_routes r t) { tasks = named.0 }))

-- The loop over the kinds of a component, with those seen.
unfoldable pub validate_component_kinds : List ComponentKind → List ComponentKind → Verdict
validate_component_kinds seen [] = valid
validate_component_kinds seen (k ∷ ks) =
    refuse_if (not (valid_component_kind k)) "component has invalid kind"
    >> refuse_if (any (λ j. component_code j == component_code k) seen) "component repeats kind"
    >> validate_component_kinds (k ∷ seen) ks

unfoldable pub validate_component_definition : ComponentDefinition → Tables → Result Tables
unfolding validate_component_kinds
validate_component_definition c t =
    refuse_if (is_nil c.kinds) "component requires at least one kind"
    >>> validate_component_kinds [] c.kinds
    >>> refuse_if (not (valid_defer c.defer)) "component has invalid defer mode"
    >>> (validate_named_route c.id c.route t.components (routes_of t) >>= λ named.
        validate_checks c.checks named.1 >>= λ r.
        ok (record (with_routes r t) { components = named.0 }))

-- The loop over the fields of a modal, with the ids seen.
unfoldable pub validate_field_definitions : List GoString → List ModalFieldDefinition → Verdict
validate_field_definitions seen [] = valid
validate_field_definitions seen (f ∷ fs) =
    refuse_if (not (valid_handler f.id)) "modal has invalid field"
    >> refuse_if (any (str_eq f.id) seen) "modal repeats field"
    >> validate_field_definitions (f.id ∷ seen) fs

unfoldable pub validate_modal_definition : ModalDefinition → Tables → Result Tables
unfolding validate_field_definitions
validate_modal_definition m t =
    refuse_if (is_nil m.fields || ltb 5 (length m.fields)) "modal requires 1 to 5 fields"
    >>> validate_field_definitions [] m.fields
    >>> refuse_if (not (valid_defer m.defer)) "modal has invalid defer mode"
    >>> (validate_named_route m.id m.route t.modals (routes_of t) >>= λ named.
        validate_checks m.checks named.1 >>= λ r.
        ok (record (with_routes r t) { modals = named.0 }))

module _ (lower : ℕ → ℕ) where
  -- A command of a cog: its kind is counted before its limit is tested.
  unfoldable pub validate_top_command : CommandDefinition → Tables → Result Tables
  validate_top_command c t =
      let kind = (head_of c).kind in
      let kinds = kind ∷ t.kinds in
      refuse_if (ltb (limit_of kind) (count_kind kind kinds))
        "definition exceeds top-level commands"
      >>> refuse_if (not (is_top_level kind)) "top-level command has illegal kind"
      >>> (validate_command lower kind [] t.commands c >>= λ commands.
          ok (record t { commands = commands; kinds = kinds }))

  unfoldable pub validate_commands : CommandDefinitions → Tables → Result Tables
  unfolding validate_top_command
  validate_commands no_commands t = ok t
  validate_commands (more c cs) t = validate_top_command c t >>= λ u. validate_commands cs u

  unfoldable pub validate_cog : CogDefinition → Tables → Result Tables
  unfolding validate_commands
  validate_cog c t =
      let name = trim_space c.name in
      refuse_if (is_nil name) "cog name is required"
      >>> refuse_if (over name 100) "cog name exceeds 100 characters"
      >>> refuse_if (any (str_eq (to_lower lower name)) t.cog_names) "duplicate cog name"
      >>> (validate_checks c.checks (routes_of t) >>= λ r.
          validate_commands c.commands
            (record (with_routes r t) { cog_names = to_lower lower name ∷ t.cog_names })
          >>= λ with_commands.
              for_each validate_listener c.listeners with_commands >>= λ with_listeners.
              for_each validate_task c.tasks with_listeners >>= λ with_tasks.
              for_each validate_component_definition c.components with_tasks >>= λ with_components.
              for_each validate_modal_definition c.modals with_components)

  -- The tables that a valid definition leaves.
  unfoldable pub enter_definition : Definition → Result Tables
  unfolding validate_cog
  enter_definition d =
      refuse_if (is_nil d.cogs) "definition must contain at least one cog"
      >>> for_each validate_cog d.cogs no_tables

  -- `Definition.Validate`
  unfoldable pub validate_definition : Definition → Verdict
  unfolding enter_definition
  validate_definition d = verdict_of (enter_definition d)
