-- ===== src/Contract/Catalog/Entered.antt =====
-- What an accepted command enters in the table of the routes, counted at one route.
use go_mamacord.Base.{
  ◌≡◌, refl, sym, ap, subst, ◌∙◌, inl, inr, ℕ, Bool, true, false, not, ◌||◌, List, [], ◌∷◌, ltb,
  if◌then◌else◌, arith, length, any, GoString, str_eq, lookup, Bool-cases, is_nil, to_lower,
}
use go_mamacord.Contract.Verdict.{valid, refuse_if, ok, ◌>>=◌, ◌>>>◌, >>=-eq-ok, >>>-eq-ok}
use go_mamacord.Contract.Inputs.{CommandKind}
use go_mamacord.Contract.Choices.{expected_choice}
use go_mamacord.Contract.Components.{is_none}
use go_mamacord.Contract.Definition.{
  OptionDefinition, CommandHead, CommandDefinitions, has_commands,
}
use go_mamacord.Contract.Definition.Checks.{
  owned, to_autocomplete, Routes, add_route, add_route_reference, validate_checks,
}
use go_mamacord.Contract.Definition.Options.{
  validate_autocomplete, validate_option_head, validate_limits, validate_option_list,
  validate_option_definitions, validate_choice_definitions,
}
use go_mamacord.Contract.Definition.Commands.{
  CommandTables, is_group, validate_container, validate_shape, enter_command, validate_head,
  path_of, path_key,
}
use go_mamacord.Contract.Catalog.{check_signatures, autocomplete_signatures}
use go_mamacord.Contract.Catalog.Tally.{
  Tally, no_tally, ◌⊕◌, none_⊕, ⊕_assoc, Fits, at, tally, add_route-Fits, add_reference-Fits,
  quiet-Fits, checks-Fits,
}

module _ (r : GoString) where
  autocomplete_tally : OptionDefinition → Tally
  autocomplete_tally o =
      if is_nil o.autocomplete then no_tally else at r to_autocomplete o.autocomplete

  autocomplete-Fits :
      (o : OptionDefinition) (t u : Routes) (n : Tally)
      → validate_autocomplete o t ≡ ok u
      → Fits (lookup r t) n
      → Fits (lookup r u) (n ⊕ autocomplete_tally o)
  unfolding validate_autocomplete autocomplete_tally
  autocomplete-Fits o t u n h f =
      let kind = refuse_if (is_none (expected_choice o.kind)) "option kind cannot autocomplete" in
      let free = refuse_if (not (is_nil o.choices)) "option cannot have choices and autocomplete" in
      let enter = add_route_reference to_autocomplete o.autocomplete t in
      let on = λ (b : Bool). (if b then ok t else (kind >>> free >>> enter)) ≡ ok u in
      let goal = λ (b : Bool).
        Fits (lookup r u) (n ⊕ (if b then no_tally else at r to_autocomplete o.autocomplete)) in
      elim (Bool-cases (is_nil o.autocomplete)) [
        | inl y ↦ subst goal (sym y) (quiet-Fits r valid t u n (subst on y h) f)
        | inr y ↦
            let entered =
              (>>>-eq-ok free enter (>>>-eq-ok kind (free >>> enter) (subst on y h)).1).1 in
            subst goal (sym y)
              (add_reference-Fits r to_autocomplete o.autocomplete t u n (λ e. cc) entered f)
      ]

  tally-autocomplete :
      (path : List GoString) (all : List OptionDefinition) (o : OptionDefinition)
      (os : List OptionDefinition)
      → tally r (autocomplete_signatures path all (o ∷ os))
        ≡ autocomplete_tally o ⊕ tally r (autocomplete_signatures path all os)
  unfolding tally autocomplete_signatures autocomplete_tally
  tally-autocomplete path all o os = elim (Bool-cases (is_nil o.autocomplete)) [
    | inl y ↦ rw y (sym (none_⊕ (tally r (autocomplete_signatures path all os))))
    | inr n ↦ rw n refl
  ]

  options-Fits :
      (lower : ℕ → ℕ) (path : List GoString) (all : List OptionDefinition) (seen : List GoString)
      (optional : Bool) (os : List OptionDefinition) (t u : Routes) (n : Tally)
      → validate_option_list lower seen optional os t ≡ ok u
      → Fits (lookup r t) n
      → Fits (lookup r u) (n ⊕ tally r (autocomplete_signatures path all os))
  unfolding validate_option_list tally autocomplete_signatures
  options-Fits lower path all seen optional [] t u n h f = quiet-Fits r valid t u n h f
  options-Fits lower path all seen optional (o ∷ os) t u n h f =
      let head = validate_option_head lower seen optional o in
      let limits = validate_limits o in
      let few = refuse_if (ltb 25 (length o.choices)) "option exceeds 25 choices" in
      let listed = validate_choice_definitions o.kind [] o.choices in
      let rest = λ (w : Routes).
        validate_option_list lower (to_lower lower o.name ∷ seen) (optional || not o.required) os
          w in
      let body = λ (w : Routes). few >>> listed >>> rest w in
      let tested : (head >>> limits >>> (validate_autocomplete o t >>= body)) ≡ ok u = h in
      let after_head =
        (>>>-eq-ok head (limits >>> (validate_autocomplete o t >>= body)) tested).1 in
      let after_limits = (>>>-eq-ok limits (validate_autocomplete o t >>= body) after_head).1 in
      let (v, entered, tail) = >>=-eq-ok (validate_autocomplete o t) body after_limits in
      let last = (>>>-eq-ok listed (rest v) (>>>-eq-ok few (listed >>> rest v) tail).1).1 in
      subst (Fits (lookup r u))
        (⊕_assoc n (autocomplete_tally o) (tally r (autocomplete_signatures path all os))
          ∙ ap (λ m. n ⊕ m) (sym (tally-autocomplete path all o os)))
        (options-Fits lower path all (to_lower lower o.name ∷ seen) (optional || not o.required) os
          v u (n ⊕ autocomplete_tally o) last (autocomplete-Fits o t v n entered f))

  -- What a command itself enters, without its checks.
  unfoldable pub own_tally : CommandHead → CommandDefinitions → Tally
  own_tally h cs = if has_commands cs then no_tally else at r owned h.route

  shape-no_group :
      (h : CommandHead) (cs : CommandDefinitions)
      → validate_shape h cs ≡ valid
      → has_commands cs ≡ false
      → is_group h.kind ≡ false
  unfolding validate_shape
  shape-no_group h cs v e = ground (arith)

  pub container-no_options :
      (h : CommandHead) (cs : CommandDefinitions) (t u : Routes)
      → validate_container h cs t ≡ ok u
      → has_commands cs ≡ true
      → is_nil h.options ≡ true
  unfolding validate_container
  container-no_options h cs t u e y = ground (arith)

  container-same :
      (h : CommandHead) (cs : CommandDefinitions) (t u : Routes)
      → validate_container h cs t ≡ ok u
      → has_commands cs ≡ true
      → t ≡ u
  unfolding validate_container
  container-same h cs t u e y = ground (arith)

  leaf-add_route :
      (h : CommandHead) (cs : CommandDefinitions) (t u : Routes)
      → validate_container h cs t ≡ ok u
      → has_commands cs ≡ false
      → is_group h.kind ≡ false
      → add_route h.route t ≡ ok u
  unfolding validate_container
  leaf-add_route h cs t u e y g = ground (arith)

  container-Fits :
      (h : CommandHead) (cs : CommandDefinitions) (t u : Routes) (n : Tally)
      → validate_container h cs t ≡ ok u
      → validate_shape h cs ≡ valid
      → Fits (lookup r t) n
      → Fits (lookup r u) (n ⊕ own_tally h cs)
  unfolding own_tally
  container-Fits h cs t u n e v f =
      let goal =
        λ (b : Bool). Fits (lookup r u) (n ⊕ (if b then no_tally else at r owned h.route)) in
      elim (Bool-cases (has_commands cs)) [
        | inl y ↦
            subst goal (sym y) (quiet-Fits r valid t u n (ap ok (container-same h cs t u e y)) f)
        | inr y ↦ subst goal (sym y) (
            add_route-Fits r h.route t u n (leaf-add_route h cs t u e y (shape-no_group h cs v y))
              f)
      ]

  -- What a command enters, without its children.
  unfoldable pub entered_tally : List GoString → CommandHead → CommandDefinitions → Tally
  entered_tally path h cs =
      own_tally h cs
      ⊕ tally r (autocomplete_signatures path h.options h.options)
      ⊕ tally r (check_signatures h.checks)

  -- The accepted parts of `enter_command`.
  pub record Entered (lower : ℕ → ℕ) (h : CommandHead) (cs : CommandDefinitions) (t u : Routes)
      : Type 0 where
    pub with_route : Routes
    pub with_options : Routes
    pub shape : validate_shape h cs ≡ valid
    pub container : validate_container h cs t ≡ ok with_route
    pub options : validate_option_list lower [] false h.options with_route ≡ ok with_options
    pub checks : validate_checks h.checks with_options ≡ ok u

  pub enter-Entered :
      (lower : ℕ → ℕ) (namespace : CommandKind) (parent : List GoString) (t u : CommandTables)
      (h : CommandHead) (cs : CommandDefinitions)
      → enter_command lower namespace parent t h cs ≡ ok u
      → Entered lower h cs t.routes u.routes
  unfolding enter_command validate_option_definitions
  enter-Entered lower namespace parent t u h cs e =
      let key = path_key namespace (path_of lower namespace parent h) in
      let head = validate_head parent h in
      let fresh = refuse_if (any (str_eq key) t.paths) "duplicate command path" in
      let few = refuse_if (ltb 25 (length h.options)) "owner exceeds 25 options" in
      let end = λ (w : Routes).
        (validate_checks h.checks w >>= λ x. ok (record { routes = x; paths = key ∷ t.paths })) in
      let opts = λ (w : Routes). few >>> validate_option_list lower [] false h.options w in
      let body = λ (w : Routes). validate_shape h cs >>> (opts w >>= end) in
      let tested : (head >>> fresh >>> (validate_container h cs t.routes >>= body)) ≡ ok u = e in
      let after =
        (>>>-eq-ok fresh (validate_container h cs t.routes >>= body)
          (>>>-eq-ok head (fresh >>> (validate_container h cs t.routes >>= body)) tested).1).1 in
      let (routes, container, e1) = >>=-eq-ok (validate_container h cs t.routes) body after in
      let (shape, e2) = >>>-eq-ok (validate_shape h cs) (opts routes >>= end) e1 in
      let (with_options, e3, e4) = >>=-eq-ok (opts routes) end e2 in
      let (with_checks, e5, e6) = >>=-eq-ok (validate_checks h.checks with_options) _ e4 in
      let same : with_checks ≡ u.routes = cc e6 in
      record {
        with_route = routes;
        with_options = with_options;
        shape = shape;
        container = container;
        options = (>>>-eq-ok few (validate_option_list lower [] false h.options routes) e3).1;
        checks = subst (λ w. validate_checks h.checks with_options ≡ ok w) same e5;
      }

  pub Entered-Fits :
      (lower : ℕ → ℕ) (path : List GoString) (h : CommandHead) (cs : CommandDefinitions)
      (t u : Routes) (n : Tally)
      → Entered lower h cs t u
      → Fits (lookup r t) n
      → Fits (lookup r u) (n ⊕ entered_tally path h cs)
  unfolding entered_tally
  Entered-Fits lower path h cs t u n e f =
      let opts = tally r (autocomplete_signatures path h.options h.options) in
      let routed = container-Fits h cs t e.with_route n e.container e.shape f in
      let optioned =
        options-Fits lower path h.options [] false h.options e.with_route e.with_options
          (n ⊕ own_tally h cs) e.options routed in
      subst (Fits (lookup r u))
        (ap (λ m. m ⊕ tally r (check_signatures h.checks)) (⊕_assoc n (own_tally h cs) opts)
          ∙ ⊕_assoc n (own_tally h cs ⊕ opts) (tally r (check_signatures h.checks)))
        (checks-Fits r h.checks e.with_options u (n ⊕ own_tally h cs ⊕ opts) e.checks optioned)
