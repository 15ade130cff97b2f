-- ===== src/Contract/Catalog/Outcome.antt =====
-- catalog.go: `ValidateOutcome` and `ValidateCheckDecision`, and operation.go: `CheckDecision`. Where
-- the code ranges over the map of the routes, the catalog is an association list and its order counts.
use go_mamacord.Base.{
  Bool, true, false, not, ◌&&◌, Option, none, some, List, [], ◌∷◌, ◌++◌, if◌then◌else◌, any, is_nil,
  length, ◌==◌, GoString, str_eq, Map, lookup, insert,
}
use go_mamacord.Contract.Verdict.{
  Verdict, valid, invalid, ◌>>◌, refuse_if, ok, error, each, verdict_of,
}
use go_mamacord.Contract.View.{
  ButtonStyle, link, SelectKind, string_select, user_select, role_select, mentionable_select,
  channel_select, unknown_select, MessageComponent, button, select, ComponentRow, Message,
  MessagePatch, TextInput, ModalView,
}
use go_mamacord.Contract.Components.{validate_message}
use go_mamacord.Contract.Inputs.{
  ComponentKind, component_button, component_string_select, component_user_select,
  component_role_select, component_mentionable_select, component_channel_select, unknown_component,
  Invocation,
}
use go_mamacord.Contract.Invocation.Validate.{validate_invocation}
use go_mamacord.Contract.Domain.{DomainOperation, send_channel, send_dm}
use go_mamacord.Contract.Operation.{
  Operation, message, update, edit_response, open_modal, choices, kv_put, kv_delete, best_effort,
  guarded, domain, validate_operations,
}
use go_mamacord.Contract.Definition.{ModalFieldDefinition}
use go_mamacord.Contract.Catalog.{
  RouteType, route_component, route_modal, RouteSignature, Catalog, is_check,
}
use go_mamacord.Contract.Catalog.Match.{supports, forget, resolve}

-- The two loops over the signatures of the catalog, as one.
unfoldable pub all_signatures : Catalog → List RouteSignature
all_signatures [] = []
all_signatures ((r, ss) ∷ c) = ss ++ all_signatures c

abbrev pub is_component : RouteType → Bool
is_component route_component = true
is_component _ = false

abbrev pub is_modal : RouteType → Bool
is_modal route_modal = true
is_modal _ = false

abbrev pub declares : GoString → ComponentKind → RouteSignature → Bool
declares id kind s =
    is_component s.type && str_eq s.component_id id && supports s.component_kinds kind

unfoldable pub component_supports : Catalog → GoString → ComponentKind → Bool
unfolding all_signatures
component_supports c id kind = any (declares id kind) (all_signatures c)

abbrev pub component_kind_for : SelectKind → ComponentKind
component_kind_for string_select = component_string_select
component_kind_for user_select = component_user_select
component_kind_for role_select = component_role_select
component_kind_for mentionable_select = component_mentionable_select
component_kind_for channel_select = component_channel_select
component_kind_for unknown_select = unknown_component

abbrev pub is_link : ButtonStyle → Bool
is_link link = true
is_link _ = false

unfoldable pub validate_handler : Catalog → MessageComponent → Verdict
unfolding component_supports
validate_handler c (button b) =
    refuse_if (not (is_link b.style) && not (component_supports c b.handler component_button))
      "references undeclared button handler"
validate_handler c (select m) =
    refuse_if (not (component_supports c m.handler (component_kind_for m.kind)))
      "references undeclared handler"

-- `validateRows`
unfoldable pub validate_handlers : Catalog → List ComponentRow → Verdict
unfolding validate_handler
validate_handlers c rows = each (λ row. each (validate_handler c) row.components) rows

abbrev pub validate_patch_handlers : Catalog → MessagePatch → Verdict
validate_patch_handlers c p = elim (p.components) [
  | none ↦ valid
  | some rows ↦ validate_handlers c rows
]

-- The fields of the view against the declared ones: `definitions` is a map of the fields by their ids.
unfoldable pub field_map :
    Map ModalFieldDefinition → List ModalFieldDefinition → Map ModalFieldDefinition
field_map m [] = m
field_map m (f ∷ fs) = field_map (insert f.id f m) fs

abbrev pub same_bool : Bool → Bool → Bool
same_bool true b = b
same_bool false b = not b

abbrev pub other_field : Option ModalFieldDefinition → TextInput → Bool
other_field none f = true
other_field (some d) f = not (same_bool d.required f.required)

unfoldable pub match_fields : Map ModalFieldDefinition → List TextInput → Verdict
match_fields m [] = refuse_if (not (is_nil m)) "modal handler omits declared fields"
match_fields m (f ∷ fs) =
    refuse_if (other_field (lookup f.id m) f) "modal handler field does not match declaration"
    >> match_fields (forget f.id m) fs

unfoldable pub match_modal_view : RouteSignature → ModalView → Verdict
unfolding field_map match_fields
match_modal_view s v =
    refuse_if (not (length s.modal_fields == length v.fields))
      "modal handler field count does not match declaration"
    >> match_fields (field_map [] s.modal_fields) v.fields

unfoldable pub find_modal : GoString → List RouteSignature → Option RouteSignature
find_modal id [] = none
find_modal id (s ∷ ss) =
    if is_modal s.type && str_eq s.modal_id id then some s else find_modal id ss

unfoldable pub validate_modal_view : Catalog → ModalView → Verdict
unfolding find_modal all_signatures match_modal_view
validate_modal_view c v = elim (find_modal v.handler (all_signatures c)) [
  | none ↦ invalid "modal handler is not declared"
  | some s ↦ match_modal_view s v
]

abbrev pub validate_domain_handlers : Catalog → DomainOperation → Verdict
validate_domain_handlers c (send_channel id m) = validate_handlers c m.components
validate_domain_handlers c (send_dm id m) = validate_handlers c m.components
validate_domain_handlers c _ = valid

-- `validateNestedOperation`, whose switch is also the body of the loop of `validateGuardedOperation`.
unfoldable pub validate_nested : Catalog → Operation → Verdict
validate_nested c (message m ephemeral) = validate_handlers c m.components
validate_nested c (update p) = validate_patch_handlers c p
validate_nested c (edit_response p) = validate_patch_handlers c p
validate_nested c (domain d) = validate_domain_handlers c d
validate_nested c _ = valid

abbrev pub validate_guarded_handlers : Catalog → Operation → Operation → Verdict
validate_guarded_handlers c o failure = validate_nested c o >> validate_nested c failure

-- The body of the loop of `ValidateOutcome`.
unfoldable pub validate_handlers_of : Catalog → Option Operation → Verdict
unfolding validate_nested
validate_handlers_of c none = valid
validate_handlers_of c (some (message m ephemeral)) = validate_handlers c m.components
validate_handlers_of c (some (update p)) = validate_patch_handlers c p
validate_handlers_of c (some (edit_response p)) = validate_patch_handlers c p
validate_handlers_of c (some (best_effort o)) = validate_nested c o
validate_handlers_of c (some (guarded o failure)) = validate_guarded_handlers c o failure
validate_handlers_of c (some (domain d)) = validate_domain_handlers c d
validate_handlers_of c (some (open_modal v)) = validate_modal_view c v
validate_handlers_of c (some (choices cs)) = valid
validate_handlers_of c (some (kv_put key v expected)) = valid
validate_handlers_of c (some (kv_delete key expected)) = valid

pub data CheckDecisionKind : Type 0 where
  allowed denied_silent denied_message unknown_decision : CheckDecisionKind

-- A reply that denies: its message, and whether it is ephemeral.
pub record Denial : Type 0 where
  pub reply : Message
  pub ephemeral : Bool

pub record CheckDecision : Type 0 where
  pub kind : CheckDecisionKind
  pub denial : Option Denial

module _ (is_https : GoString → Bool) where
  -- `Outcome.Validate`
  unfoldable pub validate_outcome_itself : Invocation → List (Option Operation) → Verdict
  validate_outcome_itself i os = validate_invocation i >> validate_operations is_https i os

  -- `RouteCatalog.ValidateOutcome`
  unfoldable pub validate_outcome : Catalog → Invocation → List (Option Operation) → Verdict
  unfolding validate_outcome_itself validate_handlers_of
  validate_outcome c i os =
      verdict_of (resolve c i) >> validate_outcome_itself i os >> each (validate_handlers_of c) os

  abbrev pub validate_decision_kind : CheckDecisionKind → Option Denial → Verdict
  validate_decision_kind denied_message none = invalid "message denial requires a reply"
  validate_decision_kind denied_message (some d) =
      validate_message is_https d.reply
      >> refuse_if (not d.ephemeral) "check denial reply must be ephemeral"
  validate_decision_kind unknown_decision denial = invalid "unsupported check decision"
  validate_decision_kind _ none = valid
  validate_decision_kind _ (some d) = invalid "check cannot contain a denial reply"

  -- `CheckDecision.Validate`
  unfoldable pub validate_decision : CheckDecision → Verdict
  validate_decision d = validate_decision_kind d.kind d.denial

  abbrev pub validate_denial : Catalog → CheckDecisionKind → Option Denial → Verdict
  validate_denial c denied_message none = invalid "check denial message must be ephemeral"
  validate_denial c denied_message (some d) =
      refuse_if (not d.ephemeral) "check denial message must be ephemeral"
      >> validate_handlers c d.reply.components
  validate_denial c _ denial = valid

  abbrev pub check_decision_on : Catalog → CheckDecision → RouteSignature → Verdict
  check_decision_on c d s =
      refuse_if (not (is_check s.type)) "invocation does not resolve to a check route"
      >> validate_decision d
      >> validate_denial c d.kind d.denial

  -- `RouteCatalog.ValidateCheckDecision`
  unfoldable pub validate_check_decision : Catalog → Invocation → CheckDecision → Verdict
  unfolding validate_decision
  validate_check_decision c i d = elim (resolve c i) [
    | error e ↦ invalid e
    | ok s ↦ check_decision_on c d s
  ]
