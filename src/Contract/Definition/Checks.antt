-- ===== src/Contract/Definition/Checks.antt =====
-- definition.go: the table of routes, and the checks that refer to routes. The table's texts are the
-- marker of a reference, or the owner of the route, whose text is left out: no owner's text is a marker.
use go_mamacord.Base.{
  ℕ, not, ◌||◌, Option, none, some, List, [], ◌∷◌, ◌==◌, is_nil, any, str_eq, GoString, trim_space,
  Map, lookup, insert,
}
use go_mamacord.Contract.Verdict.{refuse_if, Result, ok, error, ◌>>=◌, ◌>>>◌}
use go_mamacord.Contract.Components.{valid_handler}
use go_mamacord.Contract.Patterns.{is_canonical_route}
use go_mamacord.Contract.Refs.{validate_permissions}
use go_mamacord.Contract.Definition.{
  CheckKind, has_permissions, custom, unknown_check, CheckDefinition,
}

pub data Owner : Type 0 where
  owned to_autocomplete to_check : Owner

abbrev pub Routes : Type 0
Routes = Map Owner

abbrev pub owner_code : Owner → ℕ
owner_code owned = 0
owner_code to_autocomplete = 1
owner_code to_check = 2

-- What `addRouteReference` does with the entry of the route.
abbrev pub refer : Owner → GoString → Routes → Option Owner → Result Routes
refer class route t none = ok (insert route class t)
refer class route t (some previous) =
    refuse_if (not (owner_code previous == owner_code class)) "duplicate route" >>> ok t

unfoldable pub add_route_reference : Owner → GoString → Routes → Result Routes
add_route_reference class route t =
    refuse_if (not (is_canonical_route route)) "route is not canonical"
    >>> refer class route t (lookup route t)

abbrev pub own : GoString → Routes → Option Owner → Result Routes
own route t none = ok (insert route owned t)
own route t (some previous) = error "duplicate route"

unfoldable pub add_route : GoString → Routes → Result Routes
add_route route t =
    refuse_if (is_nil (trim_space route)) "route is required"
    >>> refuse_if (not (is_canonical_route route)) "route is not canonical"
    >>> own route t (lookup route t)

abbrev pub validate_check_kind : CheckKind → CheckDefinition → Routes → Result Routes
validate_check_kind custom c t = add_route_reference to_check c.route t
validate_check_kind has_permissions c t =
    refuse_if (is_nil c.permissions) "permission check needs permissions"
    >>> refuse_if (not (is_nil c.route)) "permission check cannot have a route"
    >>> validate_permissions [] c.permissions
    >>> ok t
validate_check_kind unknown_check c t = error "check has unsupported kind"
validate_check_kind _ c t =
    refuse_if (not (is_nil c.permissions) || not (is_nil c.route)) "check has unsupported arguments"
    >>> ok t

unfoldable pub validate_checks : List CheckDefinition → Routes → Result Routes
unfolding add_route_reference
validate_checks [] t = ok t
validate_checks (c ∷ cs) t = validate_check_kind c.kind c t >>= λ u. validate_checks cs u

-- `validateNamedRoute`: the ids with the new one, and the routes.
unfoldable pub validate_named_route :
    GoString → GoString → List GoString → Routes → Result (List GoString × Routes)
unfolding add_route
validate_named_route id route ids t =
    refuse_if (not (valid_handler id)) "id is not canonical"
    >>> refuse_if (any (str_eq id) ids) "duplicate id"
    >>> (add_route route t >>= λ u. ok (id ∷ ids, u))
