-- ===== src/Contract/Catalog/Replies.antt =====
-- The decisions that a catalog accepts: `ValidateCheckDecision` of catalog.go and
-- `CheckDecision.Validate` of operation.go.
use go_mamacord.Base.{
  ◌≡◌, refl, subst, ◌↔◌, inl, inr, Bool, true, not, Option, none, some, List, [], ◌∷◌, ◌++◌,
  if◌then◌else◌, arith, All, GoString, Bool-cases,
}
use go_mamacord.Contract.Verdict.{
  Verdict, valid, invalid, refuse_if, refuse_if-valid, ◌>>◌, >>-valid, each, Result, ok, error,
}
use go_mamacord.Contract.View.{MessageComponent, button, select, ComponentRow}
use go_mamacord.Contract.Components.{validate_message}
use go_mamacord.Contract.Inputs.{component_button, Invocation}
use go_mamacord.Contract.Catalog.{Catalog, RouteSignature, is_check, gather}
use go_mamacord.Contract.Catalog.Match.{resolve}
use go_mamacord.Contract.Catalog.Outcome.{
  is_link, validate_handler, validate_handlers, CheckDecisionKind, allowed, denied_silent,
  denied_message, unknown_decision, Denial, CheckDecision, validate_decision,
  validate_decision_kind, validate_denial, check_decision_on, validate_check_decision,
}
use go_mamacord.Contract.Catalog.Declared.{
  Handler, component_handlers, row_handlers, Supported, rows-Supported,
}

-- A decision without a message has no reply. One with a message has an ephemeral reply, a valid
-- message all of whose handlers are components of the catalog.
abbrev pub Replies : (GoString → Bool) → Catalog → CheckDecisionKind → Option Denial → Type 0
Replies is_https c allowed none = Unit
Replies is_https c denied_silent none = Unit
Replies is_https c denied_message (some d) =
    (d.ephemeral ≡ true)
    × (validate_message is_https d.reply ≡ valid)
    × All (Supported c) (row_handlers d.reply.components)
Replies is_https c _ _ = ⊥

module _ (c : Catalog) where
  component-valid :
      (m : MessageComponent)
      → All (Supported c) (component_handlers m)
      → validate_handler c m ≡ valid
  unfolding validate_handler
  component-valid (button b) h =
      let on =
        λ (x : Bool). All (Supported c) (if x then [] else (b.handler, component_button) ∷ []) in
      elim (Bool-cases (is_link b.style)) [
        | inl y ↦ rw y refl
        | inr y ↦ let held = (subst on y h).0 in rw (y, held) refl
      ]
  component-valid (select m) h = rw h.0 refl

  All-append_inv :
      (xs ys : List Handler)
      → All (Supported c) (xs ++ ys)
      → All (Supported c) xs × All (Supported c) ys
  All-append_inv [] ys h = (tt, h)
  All-append_inv (x ∷ xs) ys h = let rest = All-append_inv xs ys h.1 in ((h.0, rest.0), rest.1)

  each-valid_of_gather {ℓ} :
      {A : Type ℓ} (test : A → Verdict) (f : A → List Handler) (xs : List A)
      → ((x : A) → All (Supported c) (f x) → test x ≡ valid)
      → All (Supported c) (gather f xs)
      → each test xs ≡ valid
  unfolding gather
  each-valid_of_gather test f [] k h = refl
  each-valid_of_gather test f (x ∷ xs) k h =
      let parts = All-append_inv (f x) (gather f xs) h in
      (>>-valid (test x) (each test xs)).1 (k x parts.0, each-valid_of_gather test f xs k parts.1)

  rows-valid :
      (rows : List ComponentRow)
      → All (Supported c) (row_handlers rows)
      → validate_handlers c rows ≡ valid
  unfolding validate_handlers
  rows-valid rows h =
      each-valid_of_gather (λ (row : ComponentRow). each (validate_handler c) row.components)
        (λ row. gather component_handlers row.components) rows
        (λ row k.
          each-valid_of_gather (validate_handler c) component_handlers row.components
            component-valid k)
        h

module _ (is_https : GoString → Bool) (c : Catalog) where
  Replies-iff :
      (k : CheckDecisionKind) (o : Option Denial)
      → ((validate_decision_kind is_https k o >> validate_denial is_https c k o) ≡ valid)
        ↔ Replies is_https c k o
  Replies-iff allowed none = (λ h. tt, λ h. refl)
  Replies-iff allowed (some d) = (λ h. cc, λ h. absurd h)
  Replies-iff denied_silent none = (λ h. tt, λ h. refl)
  Replies-iff denied_silent (some d) = (λ h. cc, λ h. absurd h)
  Replies-iff denied_message none = (λ h. cc, λ h. absurd h)
  Replies-iff denied_message (some d) =
      let message = validate_message is_https d.reply in
      let hidden = refuse_if (not d.ephemeral) "check denial reply must be ephemeral" in
      let handlers = validate_handlers c d.reply.components in
      let again = refuse_if (not d.ephemeral) "check denial message must be ephemeral" in
      (
        λ h.
            let (decision, denial) = (>>-valid (message >> hidden) (again >> handlers)).0 h in
            let (written, kept) = (>>-valid message hidden).0 decision in
            let shown = (refuse_if-valid (not d.ephemeral) _).0 kept in
            (
              ground (arith),
              written,
              rows-Supported c d.reply.components ((>>-valid again handlers).0 denial).1,
            ),
        λ h. rw (h.0, h.1) (rows-valid c d.reply.components h.2),
      )
  Replies-iff unknown_decision none = (λ h. cc, λ h. absurd h)
  Replies-iff unknown_decision (some d) = (λ h. cc, λ h. absurd h)

  check_decision_on_iff :
      (s : RouteSignature) (d : CheckDecision)
      → (check_decision_on is_https c d s ≡ valid)
        ↔ ((is_check s.type ≡ true) × Replies is_https c d.kind d.denial)
  unfolding validate_decision
  check_decision_on_iff s d =
      let route =
        refuse_if (not (is_check s.type)) "invocation does not resolve to a check route" in
      let rest = validate_decision is_https d >> validate_denial is_https c d.kind d.denial in
      (
        λ h.
            let (on_check, sound) = (>>-valid route rest).0 h in
            let is_one = (refuse_if-valid (not (is_check s.type)) _).0 on_check in
            (ground (arith), (Replies-iff d.kind d.denial).0 sound),
        λ h. rw h.0 ((Replies-iff d.kind d.denial).1 h.1),
      )

  decided :
      (i : Invocation) (d : CheckDecision) (r : Result RouteSignature)
      → (elim r [ error e ↦ invalid e | ok s ↦ check_decision_on is_https c d s ]) ≡ valid
      → (s : RouteSignature) × (r ≡ ok s) × (check_decision_on is_https c d s ≡ valid)
  decided i d (error e) h = cc
  decided i d (ok s) h = (s, refl, h)

  -- A decision is accepted for an invocation exactly if the invocation resolves to a check's signature
  -- and the reply fits the decision.
  pub check_decision_iff :
      (i : Invocation) (d : CheckDecision)
      → (validate_check_decision is_https c i d ≡ valid) ↔ (
          (s : RouteSignature) × (resolve c i ≡ ok s)
          × (is_check s.type ≡ true)
          × Replies is_https c d.kind d.denial)
  unfolding validate_check_decision
  check_decision_iff i d = (
    λ h.
        let (s, resolved, on_route) = decided i d (resolve c i) h in
        let (on_check, replies) = (check_decision_on_iff s d).0 on_route in
        (s, resolved, on_check, replies),
    λ h.
        let (s, resolved, on_check, replies) = h in
        rw (resolved, validate_check_decision) ((check_decision_on_iff s d).1 (on_check, replies)),
  )
