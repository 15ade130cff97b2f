-- ===== src/Contract/Catalog/Declared.antt =====
-- The handlers that an accepted outcome names are declared, and their invocations resolve.
use go_mamacord.Base.{
  ◌≡◌, sym, subst, inl, inr, Bool, true, false, not, ◌&&◌, Option, none, some, List, [], ◌∷◌, ◌++◌,
  if◌then◌else◌, arith, All, All-append, GoString, Bool-cases,
}
use go_mamacord.Contract.Verdict.{Verdict, valid, ◌>>◌, >>-valid, each, refuse_if-valid, verdict_of}
use go_mamacord.Contract.View.{MessageComponent, button, select, ComponentRow, MessagePatch}
use go_mamacord.Contract.Inputs.{ComponentKind, component_button, Invocation}
use go_mamacord.Contract.Domain.{DomainOperation, send_channel, send_dm}
use go_mamacord.Contract.Operation.{
  Operation, message, update, edit_response, open_modal, choices, kv_put, kv_delete, best_effort,
  guarded, domain, validate_operations, validate_operation, validate_best_effort,
  validate_guarded_operation, validate_failure,
}
use go_mamacord.Contract.Operation.Laws.{IsValidIn, validate_operations_iff}
use go_mamacord.Contract.Invocation.Validate.{validate_invocation}
use go_mamacord.Contract.Catalog.Match.{resolve}
use go_mamacord.Contract.Catalog.{Catalog, gather}
use go_mamacord.Contract.Catalog.Outcome.{
  component_supports, component_kind_for, is_link, validate_handler, validate_handlers,
  validate_patch_handlers, validate_domain_handlers, validate_nested, validate_handlers_of,
  validate_outcome, validate_outcome_itself,
}

-- The id and the kind of component that a view refers to.
abbrev pub Handler : Type 0
Handler = GoString × ComponentKind

abbrev pub component_handlers : MessageComponent → List Handler
component_handlers (button b) = if is_link b.style then [] else (b.handler, component_button) ∷ []
component_handlers (select m) = (m.handler, component_kind_for m.kind) ∷ []

abbrev pub row_handlers : List ComponentRow → List Handler
row_handlers = gather (λ row. gather component_handlers row.components)

abbrev pub patch_handlers : Option (List ComponentRow) → List Handler
patch_handlers none = []
patch_handlers (some rows) = row_handlers rows

abbrev pub domain_handlers : DomainOperation → List Handler
domain_handlers (send_channel id m) = row_handlers m.components
domain_handlers (send_dm id m) = row_handlers m.components
domain_handlers _ = []

-- The handlers of all the views in an operation, however deep they stand.
unfoldable pub handlers_in : Operation → List Handler
handlers_in (message m ephemeral) = row_handlers m.components
handlers_in (update p) = patch_handlers p.components
handlers_in (edit_response p) = patch_handlers p.components
handlers_in (best_effort o) = handlers_in o
handlers_in (guarded o failure) = handlers_in o ++ handlers_in failure
handlers_in (domain d) = domain_handlers d
handlers_in (open_modal v) = []
handlers_in (choices cs) = []
handlers_in (kv_put key v expected) = []
handlers_in (kv_delete key expected) = []

-- The handlers of an outcome.
abbrev pub outcome_handlers : List (Option Operation) → List Handler
outcome_handlers [] = []
outcome_handlers (none ∷ os) = outcome_handlers os
outcome_handlers (some o ∷ os) = handlers_in o ++ outcome_handlers os

module _ (c : Catalog) where
  -- The catalog has a component of the id that supports the kind.
  abbrev pub Supported : Handler → Type 0
  Supported h = component_supports c h.0 h.1 ≡ true

  component-Supported :
      (m : MessageComponent) → validate_handler c m ≡ valid → All Supported (component_handlers m)
  unfolding validate_handler
  component-Supported (button b) h =
      let known = component_supports c b.handler component_button in
      let accepted =
        (refuse_if-valid (not (is_link b.style) && not known)
            "references undeclared button handler").0
          h in
      elim (Bool-cases (is_link b.style)) [
        | inl y ↦
            subst (λ x. All Supported (if x then [] else (b.handler, component_button) ∷ []))
              (sym y) tt
        | inr y ↦
            subst (λ x. All Supported (if x then [] else (b.handler, component_button) ∷ []))
              (sym y) (ground (arith), tt)
      ]
  component-Supported (select m) h =
      let known = component_supports c m.handler (component_kind_for m.kind) in
      let accepted : not known ≡ false =
        (refuse_if-valid (not known) "references undeclared handler").0 h in
      (ground (arith), tt)

  gather-All {ℓ} :
      {A : Type ℓ} (check : A → Verdict) (f : A → List Handler) (xs : List A)
      → ((x : A) → check x ≡ valid → All Supported (f x))
      → each check xs ≡ valid
      → All Supported (gather f xs)
  unfolding gather
  gather-All check f [] k h = tt
  gather-All check f (x ∷ xs) k h =
      let both = (>>-valid (check x) (each check xs)).0 h in
      All-append Supported (f x) (gather f xs) (k x both.0) (gather-All check f xs k both.1)

  pub rows-Supported :
      (rows : List ComponentRow)
      → validate_handlers c rows ≡ valid
      → All Supported (row_handlers rows)
  unfolding validate_handlers
  rows-Supported rows h =
      gather-All (λ row. each (validate_handler c) row.components) _ rows
        (λ row k.
          gather-All (validate_handler c) component_handlers row.components component-Supported k)
        h

  patch-Supported :
      (p : MessagePatch)
      → validate_patch_handlers c p ≡ valid
      → All Supported (patch_handlers p.components)
  patch-Supported p h = go p.components h
    where
      go :
          (o : Option (List ComponentRow))
          → (elim o [ none ↦ valid | some rows ↦ validate_handlers c rows ]) ≡ valid
          → All Supported (patch_handlers o)
      go none k = tt
      go (some rows) k = rows-Supported rows k

  domain-Supported :
      (d : DomainOperation)
      → validate_domain_handlers c d ≡ valid
      → All Supported (domain_handlers d)
  domain-Supported (send_channel id m) h = rows-Supported m.components h
  domain-Supported (send_dm id m) h = rows-Supported m.components h
  domain-Supported _ h = tt

  module _ (is_https : GoString → Bool) (i : Invocation) where
    guarded-Supported :
        (o : Operation)
        → validate_guarded_operation is_https i o ≡ valid
        → validate_nested c o ≡ valid
        → All Supported (handlers_in o)
    unfolding validate_nested handlers_in validate_guarded_operation
    guarded-Supported (domain d) v h = domain-Supported d h
    guarded-Supported (kv_put key x expected) v h = tt
    guarded-Supported (kv_delete key expected) v h = tt
    guarded-Supported _ v h = cc

    failure-Supported :
        (o : Operation)
        → validate_failure is_https i o ≡ valid
        → validate_nested c o ≡ valid
        → All Supported (handlers_in o)
    unfolding validate_nested handlers_in validate_failure
    failure-Supported (message m ephemeral) v h = rows-Supported m.components h
    failure-Supported (update p) v h = patch-Supported p h
    failure-Supported (edit_response p) v h = patch-Supported p h
    failure-Supported _ v h = cc

    operation-Supported :
        (o : Operation)
        → validate_operation is_https i o ≡ valid
        → validate_handlers_of c (some o) ≡ valid
        → All Supported (handlers_in o)
    unfolding validate_handlers_of validate_nested handlers_in validate_operation
        validate_best_effort validate_guarded_operation validate_failure
    operation-Supported (message m ephemeral) v h = rows-Supported m.components h
    operation-Supported (update p) v h = patch-Supported p h
    operation-Supported (edit_response p) v h = patch-Supported p h
    operation-Supported (best_effort (domain d)) v h = domain-Supported d h
    operation-Supported (best_effort _) v h = cc
    operation-Supported (guarded o failure) v h =
        let both =
          (>>-valid (validate_guarded_operation is_https i o)
              (validate_failure is_https i failure)).0
            v in
        let checked = (>>-valid (validate_nested c o) (validate_nested c failure)).0 h in
        All-append Supported (handlers_in o) (handlers_in failure)
          (guarded-Supported o both.0 checked.0) (failure-Supported failure both.1 checked.1)
    operation-Supported (domain d) v h = domain-Supported d h
    operation-Supported (open_modal m) v h = tt
    operation-Supported (choices cs) v h = tt
    operation-Supported (kv_put key x expected) v h = tt
    operation-Supported (kv_delete key expected) v h = tt

    operations-Supported :
        (os : List (Option Operation))
        → All (IsValidIn is_https i) os
        → each (validate_handlers_of c) os ≡ valid
        → All Supported (outcome_handlers os)
    operations-Supported [] v h = tt
    operations-Supported (none ∷ os) v h = absurd v.0
    operations-Supported (some o ∷ os) v h =
        let both =
          (>>-valid (validate_handlers_of c (some o)) (each (validate_handlers_of c) os)).0 h in
        All-append Supported (handlers_in o) (outcome_handlers os)
          (operation-Supported o v.0 both.0) (operations-Supported os v.1 both.1)

    pub outcome-Supported :
        (os : List (Option Operation))
        → validate_outcome is_https c i os ≡ valid
        → All Supported (outcome_handlers os)
    unfolding validate_outcome validate_outcome_itself
    outcome-Supported os h =
        let resolved = verdict_of (resolve c i) in
        let itself = validate_outcome_itself is_https i os in
        let handlers = each (validate_handlers_of c) os in
        let after = ((>>-valid resolved (itself >> handlers)).0 h).1 in
        let both = (>>-valid itself handlers).0 after in
        let operations =
          ((>>-valid (validate_invocation i) (validate_operations is_https i os)).0 both.0).1 in
        operations-Supported os ((validate_operations_iff is_https i os).0 operations).1 both.1
