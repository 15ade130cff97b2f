-- ===== src/Contract/Catalog/Compiled.antt =====
-- The signatures of a compiled catalog, counted at one route.
use go_mamacord.Base.{
  ◌≡◌, refl, sym, ap, subst, ◌∙◌, ℕ, not, ◌||◌, List, [], ◌∷◌, ◌++◌, ltb, length, any, GoString,
  str_eq, lookup, is_nil, to_lower, trim_space,
}
use go_mamacord.Contract.Verdict.{
  Verdict, valid, refuse_if, Result, ok, ◌>>=◌, ◌>>>◌, >>=-eq-ok, >>>-eq-ok, for_each,
}
use go_mamacord.Contract.Components.{valid_handler}
use go_mamacord.Contract.View.{over}
use go_mamacord.Contract.Definition.{
  CheckDefinition, CommandDefinition, CommandDefinitions, no_commands, more, head_of,
  ListenerDefinition, TaskDefinition, ComponentDefinition, ModalDefinition, CogDefinition,
  Definition, valid_defer,
}
use go_mamacord.Contract.Definition.Checks.{
  Routes, owned, add_route, validate_checks, validate_named_route,
}
use go_mamacord.Contract.Definition.Commands.{
  CommandTables, validate_command, count_kind, limit_of, is_top_level,
}
use go_mamacord.Contract.Definition.Validate.{
  Tables, no_tables, routes_of, with_routes, validate_listener, validate_task,
  validate_component_kinds, validate_component_definition, validate_field_definitions,
  validate_modal_definition, validate_top_command, validate_commands, validate_cog,
  enter_definition,
}
use go_mamacord.Contract.Catalog.{
  RouteSignature, check_signatures, command_signatures, root_signatures, listener_signatures,
  task_signatures, component_signatures, modal_signatures, gather, cog_signatures, signatures_of,
}
use go_mamacord.Contract.Catalog.Tally.{
  Tally, no_tally, ◌⊕◌, none_⊕, ⊕_assoc, Fits, at, tally, ⊕-append, unchanged, add_route-Fits,
  checks-Fits, for_each-Fits,
}
use go_mamacord.Contract.Catalog.Counted.{command-Fits}

module _ (r : GoString) where
  -- A named route with its checks, which a listener, a task, a component and a modal enter.
  handler-Fits :
      (id route : GoString) (ids : List GoString) (cs : List CheckDefinition) (t u : Routes)
      (named : List GoString × Routes) (n : Tally)
      → validate_named_route id route ids t ≡ ok named
      → validate_checks cs named.1 ≡ ok u
      → Fits (lookup r t) n
      → Fits (lookup r u) (n ⊕ (at r owned route ⊕ tally r (check_signatures cs)))
  unfolding validate_named_route
  handler-Fits id route ids cs t u named n e k f =
      let canonical = refuse_if (not (valid_handler id)) "id is not canonical" in
      let fresh = refuse_if (any (str_eq id) ids) "duplicate id" in
      let entered = λ (v : Routes). ok (id ∷ ids, v) in
      let (v, added, last) =
        >>=-eq-ok (add_route route t) entered
          (>>>-eq-ok fresh (add_route route t >>= entered)
            (>>>-eq-ok canonical (fresh >>> (add_route route t >>= entered)) e).1).1 in
      let same : v ≡ named.1 = cc last in
      let routed = add_route-Fits r route t v n added f in
      subst (Fits (lookup r u)) (⊕_assoc n (at r owned route) (tally r (check_signatures cs))) (
        checks-Fits r cs named.1 u (n ⊕ at r owned route) k
          (subst (λ w. Fits (lookup r w) (n ⊕ at r owned route)) same routed))

  -- The common end of the steps for listeners, tasks, components and modals.
  named-Fits :
      (id route : GoString) (ids : List GoString) (v : Verdict) (cs : List CheckDefinition)
      (end : List GoString → Routes → Tables)
      → ((names : List GoString) (w : Routes) → routes_of (end names w) ≡ w)
      → (t u : Tables) (n : Tally)
      → (validate_named_route id route ids (routes_of t) >>= λ named.
          v >>> (validate_checks cs named.1 >>= λ w. ok (end named.0 w)))
        ≡ ok u
      → Fits (lookup r (routes_of t)) n
      → Fits (lookup r (routes_of u)) (n ⊕ (at r owned route ⊕ tally r (check_signatures cs)))
  named-Fits id route ids v cs end routed t u n e f =
      let finish = λ (names : List GoString) (w : Routes). ok (end names w) in
      let body =
        λ (named : List GoString × Routes). v >>> (validate_checks cs named.1 >>= finish named.0) in
      let (named, first, rest) =
        >>=-eq-ok (validate_named_route id route ids (routes_of t)) body e in
      let (w, checked, last) =
        >>=-eq-ok (validate_checks cs named.1) (finish named.0)
          (>>>-eq-ok v (validate_checks cs named.1 >>= finish named.0) rest).1 in
      let made : end named.0 w ≡ u = cc last in
      let same : w ≡ routes_of u = sym (routed named.0 w) ∙ ap (λ x. routes_of x) made in
      subst (λ x. Fits (lookup r x) (n ⊕ (at r owned route ⊕ tally r (check_signatures cs)))) same
        (handler-Fits id route ids cs (routes_of t) w named n first checked f)

  listener-Fits :
      (l : ListenerDefinition) (t u : Tables) (n : Tally)
      → validate_listener l t ≡ ok u
      → Fits (lookup r (routes_of t)) n
      → Fits (lookup r (routes_of u)) (n ⊕ tally r (listener_signatures l))
  unfolding validate_listener listener_signatures tally
  listener-Fits l t u n e f =
      named-Fits l.id l.route t.listeners
        (refuse_if (is_nil (trim_space l.event)) "listener event is required") l.checks
        (λ names w. record (with_routes w t) { listeners = names }) (λ names w. refl) t u n e f

  task-Fits :
      (k : TaskDefinition) (t u : Tables) (n : Tally)
      → validate_task k t ≡ ok u
      → Fits (lookup r (routes_of t)) n
      → Fits (lookup r (routes_of u)) (n ⊕ tally r (task_signatures k))
  unfolding validate_task task_signatures tally
  task-Fits k t u n e f =
      named-Fits k.id k.route t.tasks
        (refuse_if (is_nil (trim_space k.schedule)) "task schedule is required") k.checks
        (λ names w. record (with_routes w t) { tasks = names }) (λ names w. refl) t u n e f

  component-Fits :
      (c : ComponentDefinition) (t u : Tables) (n : Tally)
      → validate_component_definition c t ≡ ok u
      → Fits (lookup r (routes_of t)) n
      → Fits (lookup r (routes_of u)) (n ⊕ tally r (component_signatures c))
  unfolding validate_component_definition component_signatures tally
  component-Fits c t u n e f =
      let some_kinds = refuse_if (is_nil c.kinds) "component requires at least one kind" in
      let kinds = validate_component_kinds [] c.kinds in
      let defer = refuse_if (not (valid_defer c.defer)) "component has invalid defer mode" in
      named-Fits c.id c.route t.components valid c.checks
        (λ names w. record (with_routes w t) { components = names }) (λ names w. refl) t u n
        (>>>-eq-ok defer _ (>>>-eq-ok kinds _ (>>>-eq-ok some_kinds _ e).1).1).1 f

  modal-Fits :
      (m : ModalDefinition) (t u : Tables) (n : Tally)
      → validate_modal_definition m t ≡ ok u
      → Fits (lookup r (routes_of t)) n
      → Fits (lookup r (routes_of u)) (n ⊕ tally r (modal_signatures m))
  unfolding validate_modal_definition modal_signatures tally
  modal-Fits m t u n e f =
      let some_fields =
        refuse_if (is_nil m.fields || ltb 5 (length m.fields)) "modal requires 1 to 5 fields" in
      let fields = validate_field_definitions [] m.fields in
      let defer = refuse_if (not (valid_defer m.defer)) "modal has invalid defer mode" in
      named-Fits m.id m.route t.modals valid m.checks
        (λ names w. record (with_routes w t) { modals = names }) (λ names w. refl) t u n
        (>>>-eq-ok defer _ (>>>-eq-ok fields _ (>>>-eq-ok some_fields _ e).1).1).1 f

  -- A step whose effect on the table is that of a list of signatures.
  abbrev CountsAs : (Tables → Result Tables) → List RouteSignature → Type 0
  CountsAs step made =
      (t u : Tables) (n : Tally)
      → step t ≡ ok u
      → Fits (lookup r (routes_of t)) n
      → Fits (lookup r (routes_of u)) (n ⊕ tally r made)

  in_turn :
      (p q : Tables → Result Tables) (xs ys : List RouteSignature)
      → CountsAs p xs
      → CountsAs q ys
      → CountsAs (λ t. p t >>= q) (xs ++ ys)
  in_turn p q xs ys first next t u n e f =
      let (v, one, two) = >>=-eq-ok (p t) q e in
      subst (Fits (lookup r (routes_of u))) (⊕-append r n xs ys)
        (next v u (n ⊕ tally r xs) two (first t v n one f))

  module _ (lower : ℕ → ℕ) where
    top-Fits :
        (c : CommandDefinition) (t u : Tables) (n : Tally)
        → validate_top_command lower c t ≡ ok u
        → Fits (lookup r (routes_of t)) n
        → Fits (lookup r (routes_of u)) (n ⊕ tally r (command_signatures (head_of c).kind [] c))
    unfolding validate_top_command
    top-Fits c t u n e f =
        let kind = (head_of c).kind in
        let kinds = kind ∷ t.kinds in
        let few =
          refuse_if (ltb (limit_of kind) (count_kind kind kinds))
            "definition exceeds top-level commands" in
        let legal = refuse_if (not (is_top_level kind)) "top-level command has illegal kind" in
        let (v, first, last) =
          >>=-eq-ok (validate_command lower kind [] t.commands c) _
            (>>>-eq-ok legal _ (>>>-eq-ok few _ e).1).1 in
        let same : v ≡ u.commands = cc last in
        subst
          (λ (w : CommandTables).
            Fits (lookup r w.routes) (n ⊕ tally r (command_signatures kind [] c)))
          same (command-Fits r lower kind kind [] [] c t.commands v n first f)

    commands-Fits :
        (cs : CommandDefinitions) (t u : Tables) (n : Tally)
        → validate_commands lower cs t ≡ ok u
        → Fits (lookup r (routes_of t)) n
        → Fits (lookup r (routes_of u)) (n ⊕ tally r (root_signatures cs))
    unfolding validate_commands root_signatures tally
    commands-Fits no_commands t u n e f = unchanged r routes_of t u n e f
    commands-Fits (more c cs) t u n e f =
        in_turn (validate_top_command lower c) (validate_commands lower cs)
          (command_signatures (head_of c).kind [] c) (root_signatures cs) (top-Fits c)
          (commands-Fits cs) t u n e f

    -- What a cog enters after its checks.
    made_of : CogDefinition → List RouteSignature
    made_of c =
        root_signatures c.commands
        ++ (gather listener_signatures c.listeners
            ++ (gather task_signatures c.tasks
                ++ (gather component_signatures c.components ++ gather modal_signatures c.modals)))

    enter_handlers : CogDefinition → Tables → Result Tables
    enter_handlers c t = validate_commands lower c.commands t >>= λ with_commands.
        for_each validate_listener c.listeners with_commands >>= λ with_listeners.
        for_each validate_task c.tasks with_listeners >>= λ with_tasks.
        for_each validate_component_definition c.components with_tasks >>= λ with_components.
        for_each validate_modal_definition c.modals with_components

    handlers-Fits : (c : CogDefinition) → CountsAs (enter_handlers c) (made_of c)
    unfolding made_of enter_handlers
    handlers-Fits c =
        in_turn (validate_commands lower c.commands) _ (root_signatures c.commands) _
          (commands-Fits c.commands)
          (in_turn (for_each validate_listener c.listeners) _
            (gather listener_signatures c.listeners) _
            (for_each-Fits r routes_of validate_listener listener_signatures listener-Fits
              c.listeners)
            (in_turn (for_each validate_task c.tasks) _ (gather task_signatures c.tasks) _
              (for_each-Fits r routes_of validate_task task_signatures task-Fits c.tasks)
              (in_turn (for_each validate_component_definition c.components)
                (for_each validate_modal_definition c.modals)
                (gather component_signatures c.components) (gather modal_signatures c.modals)
                (for_each-Fits r routes_of validate_component_definition component_signatures
                  component-Fits c.components)
                (for_each-Fits r routes_of validate_modal_definition modal_signatures modal-Fits
                  c.modals))))

    cog-Fits :
        (c : CogDefinition) (t u : Tables) (n : Tally)
        → validate_cog lower c t ≡ ok u
        → Fits (lookup r (routes_of t)) n
        → Fits (lookup r (routes_of u)) (n ⊕ tally r (cog_signatures c))
    unfolding validate_cog cog_signatures made_of enter_handlers
    cog-Fits c t u n e f =
        let name = trim_space c.name in
        let named = refuse_if (is_nil name) "cog name is required" in
        let short = refuse_if (over name 100) "cog name exceeds 100 characters" in
        let fresh =
          refuse_if (any (str_eq (to_lower lower name)) t.cog_names) "duplicate cog name" in
        let body = (>>>-eq-ok fresh _ (>>>-eq-ok short _ (>>>-eq-ok named _ e).1).1).1 in
        let (w, checked, rest) = >>=-eq-ok (validate_checks c.checks (routes_of t)) _ body in
        let start = record (with_routes w t) { cog_names = to_lower lower name ∷ t.cog_names } in
        subst (Fits (lookup r (routes_of u))) (⊕-append r n (check_signatures c.checks) (made_of c))
          (handlers-Fits c start u (n ⊕ tally r (check_signatures c.checks)) rest
            (checks-Fits r c.checks (routes_of t) w n checked f))

    pub definition-Fits :
        (d : Definition) (u : Tables)
        → enter_definition lower d ≡ ok u
        → Fits (lookup r (routes_of u)) (tally r (signatures_of d))
    unfolding enter_definition signatures_of
    definition-Fits d u e =
        let some_cog = refuse_if (is_nil d.cogs) "definition must contain at least one cog" in
        subst (Fits (lookup r (routes_of u))) (none_⊕ (tally r (signatures_of d))) (
          for_each-Fits r routes_of (validate_cog lower) cog_signatures cog-Fits d.cogs no_tables u
            no_tally (>>>-eq-ok some_cog (for_each (validate_cog lower) d.cogs no_tables) e).1
            (refl, refl, refl))
