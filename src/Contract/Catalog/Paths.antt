-- ===== src/Contract/Catalog/Paths.antt =====
-- The paths of the commands of a compiled catalog.
use go_mamacord.Base.{
  ◌≡◌, ℕ, suc, ◌+◌, ◌≤◌, Bool, true, false, not, List, [], ◌∷◌, ◌++◌, if◌then◌else◌, arith, length,
  length-append, ltb, any, All, All-append, GoString, str_eq, is_nil, trim_space, to_lower,
}
use go_mamacord.Contract.Verdict.{
  refuse_if, refuse_if-valid, Result, ok, ◌>>=◌, >>=-eq-ok, >>>-eq-ok, for_each, verdict_of-valid,
}
use go_mamacord.Contract.View.{over}
use go_mamacord.Contract.Inputs.{CommandKind, slash_command, group_command}
use go_mamacord.Contract.Definition.{
  CheckDefinition, OptionDefinition, CommandDefinition, command_definition, CommandDefinitions,
  no_commands, more, has_commands, head_of, CogDefinition, Definition, ListenerDefinition,
  TaskDefinition, ComponentDefinition, ModalDefinition,
}
use go_mamacord.Contract.Definition.Checks.{validate_checks}
use go_mamacord.Contract.Definition.Commands.{
  CommandTables, path_of, may_contain, enter_command, validate_command, validate_children,
  count_kind, limit_of, is_top_level,
}
use go_mamacord.Contract.Definition.Validate.{
  Tables, no_tables, routes_of, with_routes, validate_top_command, validate_commands, validate_cog,
  enter_definition, validate_definition,
}
use go_mamacord.Contract.Catalog.{
  RouteSignature, Catalog, is_custom, check_signatures, autocomplete_signatures, command_signatures,
  children_signatures, root_signatures, listener_signatures, task_signatures, component_signatures,
  modal_signatures, gather, cog_signatures, signatures_of, compile,
}

-- How deep the commands below one of the kind may be nested.
abbrev levels : CommandKind → ℕ
levels slash_command = 2
levels group_command = 1
levels _ = 0

abbrev pub HasShortPath : ℕ → RouteSignature → Type 0
HasShortPath n s = length s.path ≤ n

may_contain-levels : (k j : CommandKind) → may_contain k j ≡ true → suc (levels j) ≤ levels k
may_contain-levels slash_command j h = ground arith
may_contain-levels group_command j h = ground arith
may_contain-levels _ j h = cc

top-levels : (k : CommandKind) → is_top_level k ≡ true → levels k ≤ 2
top-levels k h = ground arith

shorten :
    (m n : ℕ) (ss : List RouteSignature) → m ≤ n → All (HasShortPath m) ss → All (HasShortPath n) ss
shorten m n [] h k = tt
shorten m n (s ∷ ss) h k = (omega (arith), shorten m n ss h k.1)

given : (b : Bool) → not b ≡ false → b ≡ true
given b h = ground arith

All-if :
    (n : ℕ) (b : Bool) (xs ys : List RouteSignature)
    → All (HasShortPath n) xs
    → All (HasShortPath n) ys
    → All (HasShortPath n) (if b then xs else ys)
All-if n true xs ys h k = h
All-if n false xs ys h k = k

checks-Short : (n : ℕ) (cs : List CheckDefinition) → All (HasShortPath n) (check_signatures cs)
unfolding check_signatures
checks-Short n [] = tt
checks-Short n (c ∷ cs) =
    All-if n (is_custom c.kind) _ _ (omega arith, checks-Short n cs) (checks-Short n cs)

completions-Short :
    (path : List GoString) (all os : List OptionDefinition)
    → All (HasShortPath (length path)) (autocomplete_signatures path all os)
unfolding autocomplete_signatures
completions-Short path all [] = tt
completions-Short path all (o ∷ os) =
    let rest = completions-Short path all os in
    All-if (length path) (is_nil o.autocomplete) _ _ rest (omega arith, rest)

module _ (lower : ℕ → ℕ) (namespace root : CommandKind) where
  mutual
    unfolding validate_command command_signatures

    command-Short :
        (above parent : List GoString) (c : CommandDefinition) (t u : CommandTables)
        → validate_command lower namespace above t c ≡ ok u
        → All
            (HasShortPath (suc (length parent) + levels (head_of c).kind))
            (command_signatures root parent c)
    command-Short above parent (command_definition h cs) t u e =
        let path = parent ++ (h.name ∷ []) in
        let most = suc (length parent) + levels h.kind in
        let size = length-append parent (h.name ∷ []) in
        let (v, first, rest) = >>=-eq-ok (enter_command lower namespace above t h cs) _ e in
        let below = children-Short (path_of lower namespace above h) path h.kind cs v u rest in
        All-append (HasShortPath most) (check_signatures h.checks) _ (checks-Short most h.checks) (
          All-if most (has_commands cs) _ _
            (shorten (length path + levels h.kind) most (children_signatures root path cs)
              (omega arith) below)
            (
              omega (arith),
              shorten (length path) most (autocomplete_signatures path h.options h.options)
                  (omega arith) (completions-Short path h.options h.options),
            ))

    children-Short :
        (above path : List GoString) (kind : CommandKind) (cs : CommandDefinitions)
        (t u : CommandTables)
        → validate_children lower namespace above kind t cs ≡ ok u
        → All (HasShortPath (length path + levels kind)) (children_signatures root path cs)
    children-Short above path kind no_commands t u e = tt
    children-Short above path kind (more c cs) t u e =
        let fits =
          refuse_if (not (may_contain kind (head_of c).kind)) "command cannot contain the child" in
        let rest = λ (w : CommandTables). validate_children lower namespace above kind w cs in
        let (allowed, e1) =
          >>>-eq-ok fits (validate_command lower namespace above t c >>= rest) e in
        let (v, first, last) = >>=-eq-ok (validate_command lower namespace above t c) rest e1 in
        let below =
          may_contain-levels kind (head_of c).kind
            (given (may_contain kind (head_of c).kind) ((refuse_if-valid _ _).0 allowed)) in
        All-append (HasShortPath (length path + levels kind)) (command_signatures root path c)
          (children_signatures root path cs)
          (shorten (suc (length path) + levels (head_of c).kind) (length path + levels kind) _
            (omega arith) (command-Short above path c t v first))
          (children-Short above path kind cs v u last)

gather-All {ℓ} :
    {A : Type ℓ} (n : ℕ) (made : A → List RouteSignature)
    → ((a : A) → All (HasShortPath n) (made a))
    → (items : List A) → All (HasShortPath n) (gather made items)
unfolding gather
gather-All n made h [] = tt
gather-All n made h (x ∷ xs) =
    All-append (HasShortPath n) (made x) (gather made xs) (h x) (gather-All n made h xs)

for_each-All {ℓ} :
    {A : Type ℓ} (n : ℕ) (step : A → Tables → Result Tables) (made : A → List RouteSignature)
    → ((a : A) (t u : Tables) → step a t ≡ ok u → All (HasShortPath n) (made a))
    → (items : List A) (t u : Tables) → for_each step items t ≡ ok u
    → All (HasShortPath n) (gather made items)
unfolding for_each gather
for_each-All n step made h [] t u e = tt
for_each-All n step made h (x ∷ xs) t u e =
    let (v, first, rest) = >>=-eq-ok (step x t) (for_each step xs) e in
    All-append (HasShortPath n) (made x) (gather made xs) (h x t v first)
      (for_each-All n step made h xs v u rest)

listener-Short : (n : ℕ) (l : ListenerDefinition) → All (HasShortPath n) (listener_signatures l)
unfolding listener_signatures
listener-Short n l = (omega arith, checks-Short n l.checks)

task-Short : (n : ℕ) (k : TaskDefinition) → All (HasShortPath n) (task_signatures k)
unfolding task_signatures
task-Short n k = (omega arith, checks-Short n k.checks)

component-Short : (n : ℕ) (c : ComponentDefinition) → All (HasShortPath n) (component_signatures c)
unfolding component_signatures
component-Short n c = (omega arith, checks-Short n c.checks)

modal-Short : (n : ℕ) (m : ModalDefinition) → All (HasShortPath n) (modal_signatures m)
unfolding modal_signatures
modal-Short n m = (omega arith, checks-Short n m.checks)

module _ (lower : ℕ → ℕ) where
  top-Short :
      (c : CommandDefinition) (t u : Tables)
      → validate_top_command lower c t ≡ ok u
      → All (HasShortPath 3) (command_signatures (head_of c).kind [] c)
  unfolding validate_top_command
  top-Short c t u e =
      let kind = (head_of c).kind in
      let kinds = kind ∷ t.kinds in
      let few =
        refuse_if (ltb (limit_of kind) (count_kind kind kinds))
          "definition exceeds top-level commands" in
      let legal = refuse_if (not (is_top_level kind)) "top-level command has illegal kind" in
      let (allowed, body) = >>>-eq-ok legal _ (>>>-eq-ok few _ e).1 in
      let (v, first, last) = >>=-eq-ok (validate_command lower kind [] t.commands c) _ body in
      let flat = top-levels kind (given (is_top_level kind) ((refuse_if-valid _ _).0 allowed)) in
      shorten (1 + levels kind) 3 (command_signatures kind [] c) (omega arith)
        (command-Short lower kind kind [] [] c t.commands v first)

  roots-Short :
      (cs : CommandDefinitions) (t u : Tables)
      → validate_commands lower cs t ≡ ok u
      → All (HasShortPath 3) (root_signatures cs)
  unfolding validate_commands root_signatures
  roots-Short no_commands t u e = tt
  roots-Short (more c cs) t u e =
      let (v, first, rest) = >>=-eq-ok (validate_top_command lower c t) _ e in
      All-append (HasShortPath 3) (command_signatures (head_of c).kind [] c) (root_signatures cs)
        (top-Short c t v first) (roots-Short cs v u rest)

  cog-Short :
      (c : CogDefinition) (t u : Tables)
      → validate_cog lower c t ≡ ok u
      → All (HasShortPath 3) (cog_signatures c)
  unfolding validate_cog cog_signatures
  cog-Short c t u e =
      let name = trim_space c.name in
      let named = refuse_if (is_nil name) "cog name is required" in
      let short = refuse_if (over name 100) "cog name exceeds 100 characters" in
      let fresh = refuse_if (any (str_eq (to_lower lower name)) t.cog_names) "duplicate cog name" in
      let body = (>>>-eq-ok fresh _ (>>>-eq-ok short _ (>>>-eq-ok named _ e).1).1).1 in
      let (w, checked, rest) = >>=-eq-ok (validate_checks c.checks (routes_of t)) _ body in
      let start = record (with_routes w t) { cog_names = to_lower lower name ∷ t.cog_names } in
      let (v, commands, last) = >>=-eq-ok (validate_commands lower c.commands start) _ rest in
      let P = HasShortPath 3 in
      All-append P (check_signatures c.checks) _ (checks-Short 3 c.checks) (
        All-append P (root_signatures c.commands) _ (roots-Short c.commands start v commands) (
          All-append P (gather listener_signatures c.listeners) _
            (gather-All 3 listener_signatures (listener-Short 3) c.listeners)
            (All-append P (gather task_signatures c.tasks) _
              (gather-All 3 task_signatures (task-Short 3) c.tasks)
              (All-append P (gather component_signatures c.components)
                (gather modal_signatures c.modals)
                (gather-All 3 component_signatures (component-Short 3) c.components)
                (gather-All 3 modal_signatures (modal-Short 3) c.modals)))))

  -- If a definition compiles, the paths of its commands and completions have at most three names,
  -- which is as many as an invocation may have.
  pub compile-HasShortPath :
      (d : Definition) (c : Catalog)
      → compile lower d ≡ ok c
      → All (HasShortPath 3) (signatures_of d)
  unfolding compile validate_definition enter_definition signatures_of
  compile-HasShortPath d c h =
      let accepted = (>>>-eq-ok (validate_definition lower d) _ h).0 in
      let (u, e) = verdict_of-valid (enter_definition lower d) accepted in
      let some_cog = refuse_if (is_nil d.cogs) "definition must contain at least one cog" in
      for_each-All 3 (validate_cog lower) cog_signatures cog-Short d.cogs no_tables u
        (>>>-eq-ok some_cog (for_each (validate_cog lower) d.cogs no_tables) e).1
