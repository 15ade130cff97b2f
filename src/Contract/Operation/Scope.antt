-- ===== src/Contract/Operation/Scope.antt =====
-- The context that the operations of an accepted outcome have: a guild, and an author (operation.go and
-- domain.go).
use go_mamacord.Base.{
  ◌≡◌, refl, Bool, true, false, not, Option, none, some, List, [], ◌∷◌, arith, All, GoString, codes,
  str_eq,
}
use go_mamacord.Contract.Verdict.{Verdict, valid, ◌>>◌, refuse_if, >>-valid, refuse_if-valid}
use go_mamacord.Contract.Inputs.{Invocation, lacks}
use go_mamacord.Contract.Invocation.{blank_guild, validate_kv_scope}
use go_mamacord.Contract.Domain.{
  Reminder, Audit, DomainOperation, send_channel, send_dm, timeout_member, set_slowmode,
  set_nickname, purge_messages, create_role, edit_role, delete_role, member_role, create_emoji,
  edit_emoji, delete_emoji, create_sticker, edit_sticker, delete_sticker, set_timezone,
  clear_timezone, create_check_in, create_reminder, delete_reminder, create_warning, delete_warning,
  append_audit,
}
use go_mamacord.Contract.DomainRules.{
  validate_domain, validate_reminder, validate_audit, guild_first, author_first, is_no_target,
}
use go_mamacord.Contract.Operation.{
  Operation, kv_put, kv_delete, best_effort, guarded, domain, validate_best_effort,
  validate_guarded_operation, validate_operation, validate_operations,
}
use go_mamacord.Contract.Operation.Laws.{IsValidIn, validate_operations_iff}

-- The operations on Discord or on the bot's storage that happen in a guild: on its members, its roles,
-- its channels' rules and messages, its emojis and stickers, on warnings, on a channel's reminders,
-- and in an audit with a target.
unfoldable pub needs_guild : DomainOperation → Bool
needs_guild (send_channel id m) = false
needs_guild (send_dm id m) = false
needs_guild (set_timezone zone) = false
needs_guild clear_timezone = false
needs_guild (create_check_in mood at) = false
needs_guild (create_reminder r) = str_eq r.delivery (codes "channel")
needs_guild (delete_reminder id) = false
needs_guild (append_audit a) = not (is_no_target a.target_type)
needs_guild _ = true

-- The operations that keep data of, or by, the acting user.
unfoldable pub needs_author : DomainOperation → Bool
needs_author (set_timezone zone) = true
needs_author clear_timezone = true
needs_author (create_check_in mood at) = true
needs_author (create_reminder r) = true
needs_author (delete_reminder id) = true
needs_author (create_warning user reason at) = true
needs_author (delete_warning id target) = true
needs_author _ = false

abbrev DomainHasContext : Invocation → DomainOperation → Type 0
DomainHasContext i d =
    (needs_guild d ≡ true → lacks i.guild ≡ false)
    × (needs_author d ≡ true → lacks i.author ≡ false)

-- The invocation has what the operation works in: the plugin's key-value store is that of a guild
-- with an id, and a guarded or best-effort operation needs what the one inside needs.
abbrev pub HasContext : Invocation → Operation → Type 0
HasContext i (domain d) = DomainHasContext i d
HasContext i (kv_put key v expected) = blank_guild i.guild ≡ false
HasContext i (kv_delete key expected) = blank_guild i.guild ≡ false
HasContext i (best_effort o) = HasContext i o
HasContext i (guarded o failure) = HasContext i o
HasContext i _ = Unit

abbrev pub OperationHasContext : Invocation → Option Operation → Type 0
OperationHasContext i none = ⊥
OperationHasContext i (some o) = HasContext i o

guild_first-valid :
    (i : Invocation) (v : Verdict) → guild_first i v ≡ valid → (lacks i.guild ≡ false) × (v ≡ valid)
guild_first-valid i v h =
    let both = (>>-valid (refuse_if (lacks i.guild) "operation requires guild context") v).0 h in
    ((refuse_if-valid (lacks i.guild) "operation requires guild context").0 both.0, both.1)

author_first-valid :
    (i : Invocation) (v : Verdict)
    → author_first i v ≡ valid
    → (lacks i.author ≡ false) × (v ≡ valid)
author_first-valid i v h =
    let both = (>>-valid (refuse_if (lacks i.author) "operation requires author") v).0 h in
    ((refuse_if-valid (lacks i.author) "operation requires author").0 both.0, both.1)

module _ (i : Invocation) (d : DomainOperation) where
  in_guild : (v : Verdict) → needs_author d ≡ false → guild_first i v ≡ valid → DomainHasContext i d
  in_guild v a h = (λ _. (guild_first-valid i v h).0, λ k. ground arith)

  by_author :
      (v : Verdict) → needs_guild d ≡ false → author_first i v ≡ valid → DomainHasContext i d
  by_author v g h = (λ k. ground arith, λ _. (author_first-valid i v h).0)

  by_author_in_guild :
      (v : Verdict) → guild_first i (author_first i v) ≡ valid → DomainHasContext i d
  by_author_in_guild v h =
      let outer = guild_first-valid i (author_first i v) h in
      (λ _. outer.0, λ _. (author_first-valid i v outer.1).0)

  anywhere : needs_guild d ≡ false → needs_author d ≡ false → DomainHasContext i d
  anywhere g a = (λ k. ground arith, λ k. ground arith)

reminder_context :
    (i : Invocation) (r : Reminder)
    → validate_reminder i r ≡ valid
    → (str_eq r.delivery (codes "channel") ≡ true → lacks i.guild ≡ false)
      × (lacks i.author ≡ false)
unfolding validate_reminder
reminder_context i r h = ground arith

audit_context :
    (i : Invocation) (a : Audit)
    → validate_audit i a ≡ valid
    → not (is_no_target a.target_type) ≡ true
    → lacks i.guild ≡ false
unfolding validate_audit
audit_context i a h k = ground arith

validate_domain-HasContext :
    (https : GoString → Bool) (i : Invocation) (d : DomainOperation)
    → validate_domain https i d ≡ valid
    → DomainHasContext i d
unfolding validate_domain needs_guild needs_author
validate_domain-HasContext https i (send_channel id m) h = anywhere i (send_channel id m) refl refl
validate_domain-HasContext https i (send_dm id m) h = anywhere i (send_dm id m) refl refl
validate_domain-HasContext https i (timeout_member id t) h =
    in_guild i (timeout_member id t) _ refl h
validate_domain-HasContext https i (set_slowmode id s) h = in_guild i (set_slowmode id s) _ refl h
validate_domain-HasContext https i (set_nickname id n) h = in_guild i (set_nickname id n) _ refl h
validate_domain-HasContext https i (purge_messages id m a n) h =
    in_guild i (purge_messages id m a n) _ refl h
validate_domain-HasContext https i (create_role n c x m) h =
    in_guild i (create_role n c x m) _ refl h
validate_domain-HasContext https i (edit_role id n c x m) h =
    in_guild i (edit_role id n c x m) _ refl h
validate_domain-HasContext https i (delete_role id) h = in_guild i (delete_role id) _ refl h
validate_domain-HasContext https i (member_role u r a) h = in_guild i (member_role u r a) _ refl h
validate_domain-HasContext https i (create_emoji n a) h = in_guild i (create_emoji n a) _ refl h
validate_domain-HasContext https i (edit_emoji e n) h = in_guild i (edit_emoji e n) _ refl h
validate_domain-HasContext https i (delete_emoji e) h = in_guild i (delete_emoji e) _ refl h
validate_domain-HasContext https i (create_sticker n d t a) h =
    in_guild i (create_sticker n d t a) _ refl h
validate_domain-HasContext https i (edit_sticker id n d t) h =
    in_guild i (edit_sticker id n d t) _ refl h
validate_domain-HasContext https i (delete_sticker id) h = in_guild i (delete_sticker id) _ refl h
validate_domain-HasContext https i (set_timezone z) h = by_author i (set_timezone z) _ refl h
validate_domain-HasContext https i clear_timezone h = by_author i (clear_timezone) _ refl h
validate_domain-HasContext https i (create_check_in m t) h =
    by_author i (create_check_in m t) _ refl h
validate_domain-HasContext https i (create_reminder r) h =
    let (where_, who) = reminder_context i r h in (where_, λ _. who)
validate_domain-HasContext https i (delete_reminder id) h =
    by_author i (delete_reminder id) _ refl h
validate_domain-HasContext https i (create_warning u r t) h =
    by_author_in_guild i (create_warning u r t) _ h
validate_domain-HasContext https i (delete_warning id t) h =
    by_author_in_guild i (delete_warning id t) _ h
validate_domain-HasContext https i (append_audit a) h = (audit_context i a h, λ k. cc)

kv_scope-guild :
    (i : Invocation) (key : GoString)
    → validate_kv_scope i key ≡ valid
    → blank_guild i.guild ≡ false
unfolding validate_kv_scope
kv_scope-guild i key h = ground arith

put_scope-guild :
    (i : Invocation) (key : GoString) (v : Verdict)
    → (validate_kv_scope i key >> v) ≡ valid
    → blank_guild i.guild ≡ false
put_scope-guild i key v h = kv_scope-guild i key ((>>-valid _ v).0 h).0

best_effort-HasContext :
    (https : GoString → Bool) (i : Invocation) (o : Operation)
    → validate_best_effort https i o ≡ valid
    → HasContext i o
unfolding validate_best_effort
best_effort-HasContext https i (domain d) h = validate_domain-HasContext https i d h
best_effort-HasContext https i _ h = cc

guarded-HasContext :
    (https : GoString → Bool) (i : Invocation) (o : Operation)
    → validate_guarded_operation https i o ≡ valid
    → HasContext i o
unfolding validate_guarded_operation
guarded-HasContext https i (domain d) h = validate_domain-HasContext https i d h
guarded-HasContext https i (kv_put k v e) h = put_scope-guild i k _ h
guarded-HasContext https i (kv_delete k e) h = kv_scope-guild i k h
guarded-HasContext https i _ h = cc

operation-HasContext :
    (https : GoString → Bool) (i : Invocation) (o : Operation)
    → validate_operation https i o ≡ valid
    → HasContext i o
unfolding validate_operation
operation-HasContext https i (domain d) h =
    validate_domain-HasContext https i d ((>>-valid _ _).0 h).1
operation-HasContext https i (best_effort o) h = best_effort-HasContext https i o h
operation-HasContext https i (guarded o f) h = guarded-HasContext https i o ((>>-valid _ _).0 h).0
operation-HasContext https i (kv_put k v e) h = put_scope-guild i k _ h
operation-HasContext https i (kv_delete k e) h = kv_scope-guild i k h
operation-HasContext https i _ h = tt

All-HasContext :
    (https : GoString → Bool) (i : Invocation) (os : List (Option Operation))
    → All (IsValidIn https i) os
    → All (OperationHasContext i) os
All-HasContext https i [] h = tt
All-HasContext https i (none ∷ os) h = absurd h.0
All-HasContext https i (some o ∷ os) h =
    (operation-HasContext https i o h.0, All-HasContext https i os h.1)

-- Every operation of an accepted outcome, also the one inside a guarded or a best-effort operation,
-- runs in the context that it needs. A put or a delete in the key-value store has a guild with an id.
-- An operation on members, roles, slowmode, a purge of messages, emojis, stickers or warnings, a
-- reminder in a channel, and an audit with a target have a guild. An operation on a timezone, a
-- check-in, a reminder or a warning has an author.
pub validate_operations-HasContext :
    (https : GoString → Bool) (i : Invocation) (os : List (Option Operation))
    → validate_operations https i os ≡ valid
    → All (OperationHasContext i) os
validate_operations-HasContext https i os h =
    let (_, all, _, _, _) = (validate_operations_iff https i os).0 h in
    All-HasContext https i os all
