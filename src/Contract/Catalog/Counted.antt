-- ===== src/Contract/Catalog/Counted.antt =====
-- The table of the routes that the validation of a definition fills fits the tally of the signatures of
-- its catalog, at every route.
use go_mamacord.Base.{
  ◌≡◌, refl, sym, ap, subst, ◌∙◌, ℕ, true, not, List, [], ◌∷◌, ◌++◌, GoString, lookup, is_nil,
}
use go_mamacord.Contract.Verdict.{refuse_if, ok, ◌>>=◌, >>=-eq-ok, >>>-eq-ok}
use go_mamacord.Contract.Inputs.{CommandKind}
use go_mamacord.Contract.Definition.{
  OptionDefinition, CommandHead, CommandDefinition, command_definition, CommandDefinitions,
  no_commands, more, head_of,
}
use go_mamacord.Contract.Definition.Checks.{Routes}
use go_mamacord.Contract.Definition.Commands.{
  CommandTables, path_of, may_contain, enter_command, validate_command, validate_children,
}
use go_mamacord.Contract.Catalog.{
  check_signatures, autocomplete_signatures, command_signature, command_signatures,
  children_signatures,
}
use go_mamacord.Contract.Catalog.Tally.{
  Tally, no_tally, ◌⊕◌, none_⊕, ⊕_none, ⊕_assoc, ⊕_comm, Fits, tally, tally-append, ⊕-append,
  unchanged,
}
use go_mamacord.Contract.Catalog.Entered.{
  own_tally, entered_tally, Entered, enter-Entered, Entered-Fits, container-no_options,
}

module _ (r : GoString) where
  no_options-tally :
      (path : List GoString) (all os : List OptionDefinition)
      → is_nil os ≡ true
      → tally r (autocomplete_signatures path all os) ≡ no_tally
  unfolding tally autocomplete_signatures
  no_options-tally path all [] h = refl
  no_options-tally path all (o ∷ os) h = cc

  command-tally :
      (lower : ℕ → ℕ) (root : CommandKind) (parent : List GoString) (h : CommandHead)
      (cs : CommandDefinitions) (t u : Routes)
      → Entered r lower h cs t u
      → tally r (command_signatures root parent (command_definition h cs))
        ≡ entered_tally r (parent ++ (h.name ∷ [])) h cs
          ⊕ tally r (children_signatures root (parent ++ (h.name ∷ [])) cs)
  unfolding command_signatures entered_tally own_tally tally
  command-tally lower root parent h no_commands t u e =
      let path = parent ++ (h.name ∷ []) in
      let made = command_signature root path h ∷ autocomplete_signatures path h.options h.options in
      tally-append r (check_signatures h.checks) made
      ∙ ⊕_comm (tally r (check_signatures h.checks)) (tally r made)
      ∙ sym (⊕_none (entered_tally r path h no_commands))
  command-tally lower root parent h (more c cs) t u e =
      let path = parent ++ (h.name ∷ []) in
      let children = children_signatures root path (more c cs) in
      let checked = tally r (check_signatures h.checks) in
      let bare = container-no_options r h (more c cs) t e.with_route e.container refl in
      let quiet = no_options-tally path h.options h.options bare in
      tally-append r (check_signatures h.checks) children
      ∙ ap (λ m. m ⊕ tally r children) (sym (none_⊕ checked))
      ∙ ap (λ m. m ⊕ checked ⊕ tally r children) (sym (none_⊕ no_tally))
      ∙ ap (λ m. no_tally ⊕ m ⊕ checked ⊕ tally r children) (sym quiet)

  mutual
    unfolding validate_command command_signatures tally

    pub command-Fits :
        (lower : ℕ → ℕ) (namespace root : CommandKind) (above parent : List GoString)
        (c : CommandDefinition) (t u : CommandTables) (n : Tally)
        → validate_command lower namespace above t c ≡ ok u
        → Fits (lookup r t.routes) n
        → Fits (lookup r u.routes) (n ⊕ tally r (command_signatures root parent c))
    command-Fits lower namespace root above parent (command_definition h cs) t u n e f =
        let path = parent ++ (h.name ∷ []) in
        let (v, first, rest) = >>=-eq-ok (enter_command lower namespace above t h cs) _ e in
        let entered = enter-Entered r lower namespace above t v h cs first in
        let own = entered_tally r path h cs in
        subst (Fits (lookup r u.routes))
          (⊕_assoc n own (tally r (children_signatures root path cs))
            ∙ ap (λ m. n ⊕ m)
                (sym (command-tally lower root parent h cs t.routes v.routes entered)))
          (children-Fits lower namespace root (path_of lower namespace above h) path h.kind cs v u
            (n ⊕ own) rest (Entered-Fits r lower path h cs t.routes v.routes n entered f))

    pub children-Fits :
        (lower : ℕ → ℕ) (namespace root : CommandKind) (above parent : List GoString)
        (kind : CommandKind) (cs : CommandDefinitions) (t u : CommandTables) (n : Tally)
        → validate_children lower namespace above kind t cs ≡ ok u
        → Fits (lookup r t.routes) n
        → Fits (lookup r u.routes) (n ⊕ tally r (children_signatures root parent cs))
    children-Fits lower namespace root above parent kind no_commands t u n e f =
        unchanged r (λ (w : CommandTables). w.routes) t u n e f
    children-Fits lower namespace root above parent kind (more c cs) t u n e f =
        let fits =
          refuse_if (not (may_contain kind (head_of c).kind)) "command cannot contain the child" in
        let rest = λ (w : CommandTables). validate_children lower namespace above kind w cs in
        let (v, first, last) =
          >>=-eq-ok (validate_command lower namespace above t c) rest
            (>>>-eq-ok fits (validate_command lower namespace above t c >>= rest) e).1 in
        let mine = tally r (command_signatures root parent c) in
        subst (Fits (lookup r u.routes))
          (⊕-append r n (command_signatures root parent c) (children_signatures root parent cs))
          (children-Fits lower namespace root above parent kind cs v u (n ⊕ mine) last
            (command-Fits lower namespace root above parent c t v n first f))
