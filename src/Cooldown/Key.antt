-- ===== src/Cooldown/Key.antt =====
-- key.go, and `ComponentCooldownKey` and `ModalCooldownKey` of policy.go: the key under which the
-- tracker counts a use. Of a slash command's event the key reads the type of the data, the
-- subcommand group and the subcommand.
use go_mamacord.Base.{
  ℕ, ◌≡◌, refl, ◌↔◌, Option, none, some, [], ◌∷◌, ◌++◌, if◌then◌else◌, is_nil, GoString, codes,
  trim_space, trim_space_of_NoSpace, has_prefix, ap, drop_prefix,
}
use go_mamacord.CustomId.{built, build, parse, join_ids}
use go_mamacord.CustomId.Laws.{join_ids-NoSpace}
use go_mamacord.CustomId.RoundTrip.{build_iff, parse-build}
use go_mamacord.Cooldown.Policy.{normal}

pub data DataType : Type 0 where
  slash user message other : DataType

pub record CommandEvent : Type 0 where
  pub data_type : DataType
  pub sub_command_group_name : Option GoString
  pub sub_command_name : Option GoString

abbrev pub normal_or_empty : (ℕ → ℕ) → Option GoString → GoString
normal_or_empty fold none = []
normal_or_empty fold (some name) = normal fold name

abbrev pub with_sub : GoString → GoString → GoString → GoString
with_sub key group sub =
    if is_nil sub
    then key
    else if is_nil group
    then key ++ b':' ∷ sub
    else key ++ b':' ∷ (group ++ b':' ∷ sub)

unfoldable pub typed_key : (ℕ → ℕ) → GoString → CommandEvent → DataType → GoString
typed_key fold key e user = codes "user:" ++ key
typed_key fold key e message = codes "message:" ++ key
typed_key fold key e other = key
typed_key fold key e slash =
    with_sub key (normal_or_empty fold e.sub_command_group_name)
      (normal_or_empty fold e.sub_command_name)

-- A nil event is `none`.
unfoldable pub slash_cooldown_key : (ℕ → ℕ) → Option CommandEvent → GoString → GoString
unfolding typed_key
slash_cooldown_key fold none name = normal fold name
slash_cooldown_key fold (some e) name =
    if is_nil (normal fold name)
    then normal fold name
    else typed_key fold (normal fold name) e e.data_type

-- The two functions on custom ids differ in the first word only.
unfoldable pub parsed_key : GoString → GoString → Option (GoString × GoString) → GoString
parsed_key word cid (some (plugin_id, local_id)) = word ++ b':' ∷ plugin_id
parsed_key word cid none =
    if has_prefix cid (codes "mamacord:") then word ++ codes ":mamacord" else word ++ codes ":other"

unfoldable pub word_key : GoString → GoString → GoString
unfolding parsed_key
word_key word custom_id =
    let cid = trim_space custom_id in if is_nil cid then word else parsed_key word cid (parse cid)

unfoldable pub component_cooldown_key : GoString → GoString
unfolding word_key
component_cooldown_key custom_id = word_key (codes "component") custom_id

unfoldable pub modal_cooldown_key : GoString → GoString
unfolding word_key
modal_cooldown_key custom_id = word_key (codes "modal") custom_id

word_key-build :
    (word p l out : GoString) → build p l ≡ built out → word_key word out ≡ word ++ b':' ∷ p
unfolding word_key
word_key-build word p l out h =
    let (a, b, short, e) = (build_iff p l out).0 h in
    rw (e, trim_space_of_NoSpace (join_ids p l) (join_ids-NoSpace p l a b))
      (rw (rw e at (parse-build p l out h)) refl)

-- The components that a plugin builds, whatever their local ids, count under one key, and two
-- plugins' components never count under the same key.
pub component_cooldown_key-build :
    (p l out q m out' : GoString)
    → build p l ≡ built out
    → build q m ≡ built out'
    → (component_cooldown_key out ≡ component_cooldown_key out') ↔ (p ≡ q)
unfolding component_cooldown_key drop_prefix
component_cooldown_key-build p l out q m out' h k =
    rw (word_key-build (codes "component") p l out h, word_key-build (codes "component") q m out' k)
      (
        λ e. ap (λ s. drop_prefix s (codes "component:")) e,
        λ e. ap (λ s. codes "component:" ++ s) e,
      )
