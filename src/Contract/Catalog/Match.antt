-- ===== src/Contract/Catalog/Match.antt =====
-- catalog.go: which signature an invocation matches, `RouteSignature.match`, and `Resolve`. Where the
-- code dereferences an input, or an option's channel or role, that `Invocation.Validate` has found
-- present, the missing one is refused here.
use go_mamacord.Base.{
  Bool, true, false, not, ◌&&◌, ◌||◌, Option, none, some, List, [], ◌∷◌, if◌then◌else◌, any, is_nil,
  length, GoString, str_eq, ℤ, pos, ltb_ℤ, eq_ℤ, ◌==◌, Map, lookup, insert,
}
use go_mamacord.Contract.Verdict.{
  Verdict, valid, invalid, ◌>>◌, refuse_if, Result, ok, error, ◌>>>◌,
}
use go_mamacord.Contract.Value.{Float64, float_lt, float_eq}
use go_mamacord.Contract.View.{ChannelKind}
use go_mamacord.Contract.Components.{channel_code}
use go_mamacord.Contract.Refs.{GuildRef, ChannelRef, RoleRef, MentionableRef}
use go_mamacord.Contract.Choices.{
  ChoiceKind, choice_string, choice_integer, choice_number, unknown_choice, ChoiceValue,
}
use go_mamacord.Contract.Inputs.{
  OptionKind, string_option, int_option, float_option, channel_option, role_option,
  mentionable_option, option_code, command_code, component_code, ComponentKind, ResponseState,
  unacknowledged, deferred_create, deferred_update, OptionValue, NamedString, CommandInput,
  AutocompleteInput, ComponentInput, ModalInput, EventInput, Invocation, command, autocomplete,
  component, modal, event, task, check, is_kind, in_state,
}
use go_mamacord.Contract.Invocation.Validate.{validate_invocation}
use go_mamacord.Contract.Definition.{
  DeferMode, defer_create, defer_update, OptionDefinition, ModalFieldDefinition,
}
use go_mamacord.Contract.Catalog.{
  RouteType, route_command, route_autocomplete, route_component, route_modal, route_listener,
  route_task, route_check, RouteSignature, Catalog, candidates,
}

-- `delete(provided, name)`
unfoldable pub forget {ℓ} : {V : Type ℓ} → GoString → Map V → Map V
forget k [] = []
forget k ((j, v) ∷ m) = let rest = forget k m in if str_eq j k then rest else (j, v) ∷ rest

-- `slices.Equal`
unfoldable pub same_path : List GoString → List GoString → Bool
same_path [] [] = true
same_path (p ∷ ps) (q ∷ qs) = str_eq p q && same_path ps qs
same_path _ _ = false

abbrev pub expected_state : DeferMode → ResponseState
expected_state defer_create = deferred_create
expected_state defer_update = deferred_update
expected_state _ = unacknowledged

abbrev pub match_defer : RouteSignature → Invocation → Verdict
match_defer s i =
    refuse_if (not (in_state (expected_state s.defer) i)) "response state does not match defer mode"

unfoldable pub find_option : List OptionDefinition → GoString → Option OptionDefinition
find_option [] name = none
find_option (o ∷ os) name = if str_eq o.name name then some o else find_option os name

abbrev pub choice_matches : ChoiceKind → ChoiceValue → OptionValue → Bool
choice_matches choice_string c v =
    option_code v.kind == option_code string_option && str_eq v.string c.string
choice_matches choice_integer c v =
    option_code v.kind == option_code int_option && eq_ℤ v.integer c.integer
choice_matches choice_number c v =
    option_code v.kind == option_code float_option && float_eq v.number c.number
choice_matches unknown_choice c v = false

-- Below the lower bound or above the upper one, where they are given.
abbrev pub outside_ℤ : Option ℤ → Option ℤ → ℤ → Bool
outside_ℤ low high x =
    (elim low [ none ↦ false | some l ↦ ltb_ℤ x l ])
    || (elim high [ none ↦ false | some h ↦ ltb_ℤ h x ])

abbrev pub outside_number : Option Float64 → Option Float64 → Float64 → Bool
outside_number low high x =
    (elim low [ none ↦ false | some l ↦ float_lt x l ])
    || (elim high [ none ↦ false | some h ↦ float_lt h x ])

-- `guild != nil && id != "" && id != guild.ID`
abbrev pub other_guild : Option GuildRef → GoString → Bool
other_guild none id = false
other_guild (some g) id = not (is_nil id) && not (str_eq id g.id)

abbrev pub validate_channel_value : List ChannelKind → Option GuildRef → Option ChannelRef → Verdict
validate_channel_value kinds guild none = invalid "nil channel"
validate_channel_value kinds guild (some c) =
    refuse_if (not (is_nil kinds) && not (any (λ k. channel_code k == channel_code c.kind) kinds))
      "channel kind is not allowed"
    >> refuse_if (other_guild guild c.guild_id) "channel belongs to another guild"

abbrev pub validate_role_value : Option GuildRef → Option RoleRef → Verdict
validate_role_value guild none = invalid "nil role"
validate_role_value guild (some r) =
    refuse_if (other_guild guild r.guild_id) "role belongs to another guild"

abbrev pub role_elsewhere : Option GuildRef → Option RoleRef → Bool
role_elsewhere guild none = false
role_elsewhere guild (some r) = other_guild guild r.guild_id

abbrev pub validate_mentionable_value : Option GuildRef → Option MentionableRef → Verdict
validate_mentionable_value guild none = invalid "nil mentionable"
validate_mentionable_value guild (some m) =
    refuse_if (role_elsewhere guild m.role) "mentionable role belongs to another guild"

-- The switch on the kind of the value.
abbrev pub validate_bounds : OptionKind → OptionValue → OptionDefinition → Option GuildRef → Verdict
validate_bounds string_option v d guild =
    refuse_if (outside_ℤ d.min_length d.max_length (pos (length v.string)))
      "string length is outside declared bounds"
validate_bounds int_option v d guild =
    refuse_if (outside_ℤ d.min_integer d.max_integer v.integer) "integer is outside declared bounds"
validate_bounds float_option v d guild =
    refuse_if (outside_number d.min_number d.max_number v.number)
      "number is outside declared bounds"
validate_bounds channel_option v d guild = validate_channel_value d.channel_kinds guild v.channel
validate_bounds role_option v d guild = validate_role_value guild v.role
validate_bounds mentionable_option v d guild = validate_mentionable_value guild v.mentionable
validate_bounds _ v d guild = valid

unfoldable pub validate_runtime_option : OptionValue → OptionDefinition → Option GuildRef → Verdict
validate_runtime_option v d guild =
    validate_bounds v.kind v d guild
    >> refuse_if
        (not (is_nil d.choices) && not (any (λ c. choice_matches c.value.kind c.value v) d.choices))
        "value is not a declared choice"

-- `provided[value.Name] = value` for each value, whose names must differ.
unfoldable pub provide_options : Map OptionValue → List OptionValue → Result (Map OptionValue)
provide_options m [] = ok m
provide_options m (v ∷ vs) = elim (lookup v.name m) [
  | some _ ↦ error "duplicate option"
  | none ↦ provide_options (insert v.name v m) vs
]

abbrev pub check_provided : Option OptionValue → OptionDefinition → Bool → Option GuildRef → Verdict
check_provided none d require guild = refuse_if (require && d.required) "required option is absent"
check_provided (some v) d require guild =
    refuse_if (not (option_code v.kind == option_code d.kind)) "option kind does not match"
    >> validate_runtime_option v d guild

unfoldable pub check_definitions :
    Map OptionValue → List OptionDefinition → Bool → Option GuildRef → Verdict
check_definitions m [] require guild = refuse_if (not (is_nil m)) "option is not declared"
check_definitions m (d ∷ ds) require guild =
    check_provided (lookup d.name m) d require guild
    >> check_definitions (forget d.name m) ds require guild

unfoldable pub validate_runtime_options :
    List OptionValue → List OptionDefinition → Bool → Option GuildRef → Verdict
validate_runtime_options vs ds require guild = elim (provide_options [] vs) [
  | error e ↦ invalid e
  | ok m ↦ check_definitions m ds require guild
]

unfoldable pub validate_focused_option : OptionValue → Option OptionDefinition → Verdict
validate_focused_option v none = invalid "focused option is not declared"
validate_focused_option v (some d) =
    refuse_if (not (option_code v.kind == option_code d.kind)) "focused option kind does not match"
    >> refuse_if (option_code v.kind == option_code float_option && not v.number.finite)
        "focused number must be finite"

unfoldable pub provide_fields : Map GoString → List NamedString → Map GoString
provide_fields m [] = m
provide_fields m (v ∷ vs) = provide_fields (insert v.name v.value m) vs

abbrev pub check_field : Option GoString → ModalFieldDefinition → Verdict
check_field none d = refuse_if d.required "required modal field is absent"
check_field (some value) d = refuse_if (d.required && is_nil value) "required modal field is empty"

unfoldable pub check_fields : Map GoString → List ModalFieldDefinition → Verdict
check_fields m [] = refuse_if (not (is_nil m)) "modal field is not declared"
check_fields m (d ∷ ds) = check_field (lookup d.id m) d >> check_fields (forget d.id m) ds

unfoldable pub validate_field_values : List NamedString → List ModalFieldDefinition → Verdict
validate_field_values vs ds = check_fields (provide_fields [] vs) ds

abbrev pub match_command : RouteSignature → Invocation → Option CommandInput → Verdict
match_command s i none = invalid "nil command input"
match_command s i (some c) =
    refuse_if (not (command_code c.kind == command_code s.command_kind))
      "command kind does not match"
    >> match_defer s i
    >> refuse_if (not (same_path c.path s.path)) "command path does not match"
    >> validate_runtime_options c.options s.options true i.guild

abbrev pub match_autocomplete : RouteSignature → Invocation → Option AutocompleteInput → Verdict
match_autocomplete s i none = invalid "nil autocomplete input"
match_autocomplete s i (some a) =
    refuse_if
      (not (same_path a.path s.path)
        || not (str_eq a.option s.option_name)
        || not (option_code a.focused.kind == option_code s.option_kind))
      "autocomplete path, option, or kind does not match"
    >> validate_focused_option a.focused (find_option s.options s.option_name)
    >> validate_runtime_options a.options s.options false i.guild

abbrev pub supports : List ComponentKind → ComponentKind → Bool
supports kinds k = any (λ j. component_code j == component_code k) kinds

abbrev pub match_component : RouteSignature → Invocation → Option ComponentInput → Verdict
match_component s i none = invalid "nil component input"
match_component s i (some c) =
    refuse_if (not (str_eq c.id s.component_id) || not (supports s.component_kinds c.kind))
      "component id or kind does not match"
    >> match_defer s i

abbrev pub match_modal : RouteSignature → Invocation → Option ModalInput → Verdict
match_modal s i none = invalid "nil modal input"
match_modal s i (some m) =
    refuse_if (not (str_eq m.id s.modal_id)) "modal id does not match"
    >> match_defer s i
    >> validate_field_values m.fields s.modal_fields

abbrev pub other_event : Option EventInput → GoString → Bool
other_event none name = true
other_event (some e) name = not (str_eq e.name name)

abbrev pub other_task : Option GoString → GoString → Bool
other_task none id = true
other_task (some t) id = not (str_eq t id)

abbrev pub match_type : RouteType → RouteSignature → Invocation → Verdict
match_type route_command s i =
    refuse_if (not (is_kind command i)) "requires command invocation" >> match_command s i i.command
match_type route_autocomplete s i =
    refuse_if (not (is_kind autocomplete i)) "requires autocomplete invocation"
    >> match_autocomplete s i i.autocomplete
match_type route_component s i =
    refuse_if (not (is_kind component i)) "requires component invocation"
    >> match_component s i i.component
match_type route_modal s i =
    refuse_if (not (is_kind modal i)) "requires modal invocation" >> match_modal s i i.modal
match_type route_listener s i =
    refuse_if (not (is_kind event i) || other_event i.event s.event) "listener event does not match"
match_type route_task s i =
    refuse_if (not (is_kind task i) || other_task i.task s.task_id) "task id does not match"
match_type route_check s i = refuse_if (not (is_kind check i)) "requires check invocation"

unfoldable pub matches : RouteSignature → Invocation → Verdict
unfolding validate_runtime_options validate_focused_option validate_field_values find_option
matches s i = match_type s.type s i

-- The loop over the candidates, with the match so far and whether a candidate was refused.
unfoldable pub select_match :
    Option RouteSignature → Bool → List RouteSignature → Invocation → Result RouteSignature
unfolding matches
select_match (some m) refused [] i = ok m
select_match none refused [] i =
    if refused then error "route signature mismatch" else error "route has no compatible signature"
select_match none refused (s ∷ ss) i = elim (matches s i) [
  | invalid e ↦ select_match none true ss i
  | valid ↦ select_match (some s) refused ss i
]
select_match (some m) refused (s ∷ ss) i = elim (matches s i) [
  | invalid e ↦ select_match (some m) true ss i
  | valid ↦ error "route matches multiple signatures"
]

-- `RouteCatalog.Resolve`, of a catalog that is not nil.
unfoldable pub resolve : Catalog → Invocation → Result RouteSignature
unfolding select_match
resolve c i =
    let found = candidates i.route c in
    validate_invocation i
    >>> refuse_if (is_nil found) "route is not registered"
    >>> select_match none false found i
