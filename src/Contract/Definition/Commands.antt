-- ===== src/Contract/Definition/Commands.antt =====
-- definition.go: `validateCommand`.
use go_mamacord.Base.{
  ℕ, ◌+◌, Bool, true, false, not, ◌&&◌, ◌||◌, List, [], ◌∷◌, ◌++◌, ltb, ◌==◌, if◌then◌else◌, is_nil,
  any, GoString, codes, str_eq, trim_space, to_lower,
}
use go_mamacord.Contract.Verdict.{Verdict, valid, ◌>>◌, refuse_if, Result, ok, ◌>>=◌, ◌>>>◌}
use go_mamacord.Contract.View.{over}
use go_mamacord.Contract.Patterns.{valid_slash_name}
use go_mamacord.Contract.Refs.{
  MemberPermission, administrator, manage_guild, manage_roles, manage_expressions,
  create_expressions, manage_messages, manage_nicknames, manage_channels, kick_members, ban_members,
  moderate_members, unknown_permission, permission_code, valid_member_permission,
}
use go_mamacord.Contract.Inputs.{
  CommandKind, slash_command, user_command, message_command, group_command, subcommand,
  unknown_command, command_code,
}
use go_mamacord.Contract.Definition.{
  DeferMode, defer_none, defer_update, valid_defer, CommandHead, CommandDefinition,
  command_definition, CommandDefinitions, no_commands, more, head_of, has_commands, count_commands,
}
use go_mamacord.Contract.Definition.Checks.{Routes, add_route, validate_checks}
use go_mamacord.Contract.Definition.Options.{validate_option_definitions}

abbrev pub permission_texts : List (GoString × MemberPermission)
permission_texts =
    (codes "administrator", administrator)
    ∷ (codes "manage_guild", manage_guild)
    ∷ (codes "manage_roles", manage_roles)
    ∷ (codes "manage_expressions", manage_expressions)
    ∷ (codes "create_expressions", create_expressions)
    ∷ (codes "manage_messages", manage_messages)
    ∷ (codes "manage_nicknames", manage_nicknames)
    ∷ (codes "manage_channels", manage_channels)
    ∷ (codes "kick_members", kick_members)
    ∷ (codes "ban_members", ban_members)
    ∷ (codes "moderate_members", moderate_members)
    ∷ []

abbrev pub permission_in : List (GoString × MemberPermission) → GoString → MemberPermission
permission_in [] text = unknown_permission
permission_in ((name, p) ∷ ps) text = if str_eq name text then p else permission_in ps text

-- The loop over the default permissions, with those seen.
unfoldable pub validate_default_permissions : List MemberPermission → List GoString → Verdict
validate_default_permissions seen [] = valid
validate_default_permissions seen (raw ∷ raws) =
    let p = permission_in permission_texts (trim_space raw) in
    refuse_if (is_nil (trim_space raw)) "empty default permission"
    >> refuse_if (not (valid_member_permission p)) "unsupported default permission"
    >> refuse_if (any (λ q. permission_code q == permission_code p) seen)
        "repeated default permission"
    >> validate_default_permissions (p ∷ seen) raws

abbrev pub is_context : CommandKind → Bool
is_context user_command = true
is_context message_command = true
is_context _ = false

abbrev pub is_group : CommandKind → Bool
is_group group_command = true
is_group _ = false

abbrev pub is_subcommand : CommandKind → Bool
is_subcommand subcommand = true
is_subcommand _ = false

-- The tests of the name, the description and the permissions.
unfoldable pub validate_head : List GoString → CommandHead → Verdict
unfolding validate_default_permissions
validate_head parent h =
    refuse_if (not (str_eq h.name (trim_space h.name))) "command name has surrounding whitespace"
    >> refuse_if (not (valid_slash_name h.name) && not (is_context h.kind))
        "command name must match"
    >> refuse_if (is_context h.kind && (is_nil h.name || over h.name 32))
        "context command name must contain 1 to 32 characters"
    >> refuse_if (not (is_context h.kind) && is_nil (trim_space h.description))
        "command requires a base description"
    >> refuse_if (not (is_context h.kind) && over h.description 100)
        "command description exceeds 100 characters"
    >> refuse_if
        (is_context h.kind && (not (is_nil h.description) || not (is_nil h.description_id)))
        "context command cannot define a description"
    >> refuse_if (not (is_nil parent) && not (is_nil h.default_member_permissions))
        "child command cannot define default member permissions"
    >> validate_default_permissions [] h.default_member_permissions

-- `strings.Join(parts, " ")`
unfoldable pub join_space : List GoString → GoString
join_space [] = []
join_space (part ∷ []) = part
join_space (part ∷ next ∷ parts) = part ++ (b' ' ∷ join_space (next ∷ parts))

abbrev pub kind_text : CommandKind → GoString
kind_text slash_command = codes "slash"
kind_text user_command = codes "user"
kind_text message_command = codes "message"
kind_text group_command = codes "group"
kind_text subcommand = codes "subcommand"
kind_text unknown_command = codes "?"

abbrev pub path_key : CommandKind → List GoString → GoString
path_key namespace parts = kind_text namespace ++ (b':' ∷ join_space parts)

-- The tables that the validation of commands fills.
pub record CommandTables : Type 0 where
  pub routes : Routes
  pub paths : List GoString

abbrev pub is_defer_none : DeferMode → Bool
is_defer_none defer_none = true
is_defer_none _ = false

abbrev pub is_defer_update : DeferMode → Bool
is_defer_update defer_update = true
is_defer_update _ = false

abbrev pub is_container : CommandHead → CommandDefinitions → Bool
is_container h cs = has_commands cs || is_group h.kind

-- A container has no route of its own; a leaf enters its route.
unfoldable pub validate_container : CommandHead → CommandDefinitions → Routes → Result Routes
validate_container h cs t =
    if is_container h cs
    then (refuse_if (not (is_nil h.route)) "command container cannot have a route"
        >>> refuse_if (not (is_nil h.options)) "command container cannot have options"
        >>> refuse_if (h.ephemeral || not (is_defer_none h.defer))
            "command container cannot define leaf response metadata"
        >>> ok t)
    else add_route h.route t

unfoldable pub validate_shape : CommandHead → CommandDefinitions → Verdict
validate_shape h cs =
    refuse_if (not (is_container h cs) && (not (valid_defer h.defer) || is_defer_update h.defer))
      "command has invalid defer mode"
    >> refuse_if (ltb 25 (count_commands cs)) "command exceeds 25 children"
    >> refuse_if (is_context h.kind && (has_commands cs || not (is_nil h.options)))
        "context command cannot have children or options"
    >> refuse_if (is_group h.kind && not (has_commands cs)) "group must contain subcommands"
    >> refuse_if (is_subcommand h.kind && has_commands cs) "subcommand cannot contain children"

-- Which children a command of the kind may contain.
abbrev pub may_contain : CommandKind → CommandKind → Bool
may_contain slash_command child = is_subcommand child || is_group child
may_contain group_command child = is_subcommand child
may_contain _ child = false

module _ (lower : ℕ → ℕ) (namespace : CommandKind) where
  abbrev pub path_of : List GoString → CommandHead → List GoString
  path_of parent h = parent ++ (to_lower lower h.name ∷ [])

  -- Everything but the children.
  unfoldable pub enter_command :
      List GoString → CommandTables → CommandHead → CommandDefinitions → Result CommandTables
  unfolding validate_head validate_container validate_shape
  enter_command parent t h cs =
      let key = path_key namespace (path_of parent h) in
      validate_head parent h
      >>> refuse_if (any (str_eq key) t.paths) "duplicate command path"
      >>> (validate_container h cs t.routes >>= λ routes.
          validate_shape h cs
          >>> (validate_option_definitions lower h.options routes >>= λ with_options.
              validate_checks h.checks with_options >>= λ with_checks.
              ok (record { routes = with_checks; paths = key ∷ t.paths })))

  unfoldable mutual
    unfolding enter_command

    pub validate_command : List GoString → CommandTables → CommandDefinition → Result CommandTables
    validate_command parent t (command_definition h cs) =
        enter_command parent t h cs >>= λ u. validate_children (path_of parent h) h.kind u cs

    pub validate_children :
        List GoString → CommandKind → CommandTables → CommandDefinitions → Result CommandTables
    validate_children path kind t no_commands = ok t
    validate_children path kind t (more c cs) =
        refuse_if (not (may_contain kind (head_of c).kind)) "command cannot contain the child"
        >>> (validate_command path t c >>= λ u. validate_children path kind u cs)

-- The count of the commands of a kind among those of a cog's that the loop has seen.
abbrev pub count_kind : CommandKind → List CommandKind → ℕ
count_kind k [] = 0
count_kind k (j ∷ js) = (if command_code j == command_code k then 1 else 0) + count_kind k js

abbrev pub limit_of : CommandKind → ℕ
limit_of user_command = 5
limit_of message_command = 5
limit_of _ = 100

abbrev pub is_top_level : CommandKind → Bool
is_top_level slash_command = true
is_top_level user_command = true
is_top_level message_command = true
is_top_level _ = false
