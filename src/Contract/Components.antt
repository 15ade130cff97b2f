-- ===== src/Contract/Components.antt =====
-- operation.go: the validation of buttons, selects, component rows, modals, messages and patches.
use go_mamacord.Base.{
  ℕ, ◌+◌, Bool, true, false, not, ◌&&◌, ◌||◌, Option, none, some, List, [], ◌∷◌, ltb, ◌==◌,
  if◌then◌else◌, is_nil, length, any, GoString, str_eq, trim_space, ℤ, pos, is_below, is_above,
  is_zero_ℤ, ltb_ℤ, magnitude,
}
use go_mamacord.Manifest.Ids.{valid_local_id}
use go_mamacord.Contract.Verdict.{Verdict, valid, invalid, ◌>>◌, refuse_if, each}
use go_mamacord.Contract.View.{
  Button, ButtonStyle, link, unknown_style, Select, SelectKind, string_select, channel_select,
  unknown_select, SelectOption, ChannelKind, unknown_channel, text_channel, voice_channel,
  category_channel, announcement_channel, stage_channel, forum_channel, media_channel,
  MessageComponent, button, select, ComponentRow, Message, MessagePatch, TextInput, TextInputStyle,
  unknown_input, ModalView, over, validate_emoji_option, validate_https_url_required, total_verdict,
  count_embeds, Embed,
}

-- `handlerIDPattern` is the pattern of a custom id's local part.
abbrev pub valid_handler : GoString → Bool
valid_handler = valid_local_id

abbrev pub is_none {ℓ} : {A : Type ℓ} → Option A → Bool
is_none none = true
is_none (some a) = false

abbrev pub valid_channel_kind : ChannelKind → Bool
valid_channel_kind unknown_channel = false
valid_channel_kind _ = true

abbrev pub channel_code : ChannelKind → ℕ
channel_code text_channel = 0
channel_code voice_channel = 1
channel_code category_channel = 2
channel_code announcement_channel = 3
channel_code stage_channel = 4
channel_code forum_channel = 5
channel_code media_channel = 6
channel_code unknown_channel = 7

unfoldable pub validate_channel_kinds : List ChannelKind → List ChannelKind → Verdict
validate_channel_kinds seen [] = valid
validate_channel_kinds seen (k ∷ ks) =
    refuse_if (not (valid_channel_kind k)) "unsupported select channel kind"
    >> (refuse_if (any (λ j. channel_code j == channel_code k) seen) "duplicate select channel kind"
        >> validate_channel_kinds (k ∷ seen) ks)

-- The loop over the options, with the values seen.
unfoldable pub validate_options : List GoString → List SelectOption → Verdict
validate_options seen [] = valid
validate_options seen (o ∷ os) =
    refuse_if (is_nil (trim_space o.label) || over o.label 100)
      "option label must contain 1 to 100 characters"
    >> (refuse_if (is_nil o.value || over o.value 100)
          "option value must contain 1 to 100 characters"
        >> (refuse_if (over o.description 100) "option description exceeds 100 characters"
            >> (refuse_if (any (str_eq o.value) seen) "duplicate select option value"
                >> (validate_emoji_option o.emoji >> validate_options (o.value ∷ seen) os))))

abbrev pub count_defaults : List SelectOption → ℕ
count_defaults [] = 0
count_defaults (o ∷ os) = (if o.default then 1 else 0) + count_defaults os

-- `if x == 0 { x = 1 }`
abbrev pub one_if_zero : ℤ → ℤ
one_if_zero x = if is_zero_ℤ x then pos 1 else x

unfoldable pub validate_select_kind : SelectKind → Select → Verdict
validate_select_kind string_select m =
    refuse_if (is_nil m.options || ltb 25 (length m.options))
      "string select must contain 1 to 25 options"
    >> refuse_if (not (is_nil m.channel_kinds)) "string select cannot contain channel kinds"
validate_select_kind channel_select m =
    refuse_if (not (is_nil m.options)) "channel select cannot contain string options"
validate_select_kind unknown_select m = invalid "unsupported select kind"
validate_select_kind _ m =
    refuse_if (not (is_nil m.options) || not (is_nil m.channel_kinds))
      "entity select contains unsupported options or channel kinds"

unfoldable pub validate_select : Select → Verdict
unfolding validate_select_kind validate_channel_kinds validate_options
validate_select m =
    let low = one_if_zero m.min_values in
    let high = one_if_zero m.max_values in
    refuse_if (not (valid_handler m.handler)) "select handler is invalid"
    >> (refuse_if (over m.placeholder 150) "placeholder exceeds 150 characters"
        >> (refuse_if (is_below low 0 || is_below high 1 || ltb_ℤ high low || is_above high 25)
              "select min/max values are invalid"
            >> (validate_select_kind m.kind m
                >> (validate_channel_kinds [] m.channel_kinds
                    >> (validate_options [] m.options
                        >> refuse_if (ltb (magnitude high) (count_defaults m.options))
                            "default select options exceed maximum values")))))

abbrev pub validate_input_style : TextInputStyle → Verdict
validate_input_style unknown_input = invalid "unsupported text input style"
validate_input_style _ = valid

unfoldable pub validate_text_input : TextInput → Verdict
validate_text_input f =
    let most = if is_zero_ℤ f.max_length then pos 4000 else f.max_length in
    let len = length f.value in
    refuse_if (is_nil (trim_space f.id)) "id is required"
    >> (refuse_if (over f.id 100) "id exceeds 100 characters"
        >> (refuse_if (is_nil f.label || over f.label 45) "label must contain 1 to 45 characters"
            >> (validate_input_style f.style
                >> (refuse_if (over f.placeholder 100) "placeholder exceeds 100 characters"
                    >> (refuse_if
                          (is_below f.min_length 0
                            || is_below f.max_length 0
                            || is_above f.max_length 4000)
                          "min/max length is invalid"
                        >> (refuse_if (ltb_ℤ most f.min_length) "minimum length exceeds maximum"
                            >> (refuse_if (is_below most len) "value exceeds maximum length"
                                >> refuse_if (not (is_nil f.value) && is_above f.min_length len)
                                    "value is shorter than minimum length")))))))

unfoldable pub validate_modal_fields : List GoString → List TextInput → Verdict
unfolding validate_text_input
validate_modal_fields seen [] = valid
validate_modal_fields seen (f ∷ fs) =
    validate_text_input f
    >> (refuse_if (any (str_eq f.id) seen) "duplicate modal field id"
        >> validate_modal_fields (f.id ∷ seen) fs)

unfoldable pub validate_modal : ModalView → Verdict
unfolding validate_modal_fields
validate_modal m =
    refuse_if (not (valid_handler m.handler)) "modal handler is invalid"
    >> (refuse_if (is_nil m.title || over m.title 45) "modal title must contain 1 to 45 characters"
        >> (refuse_if (is_nil m.fields || ltb 5 (length m.fields))
              "modal must contain 1 to 5 fields"
            >> validate_modal_fields [] m.fields))

module _ (is_https : GoString → Bool) where
  unfoldable pub validate_button_style : ButtonStyle → Button → Verdict
  validate_button_style link b =
      refuse_if (not (is_nil b.handler)) "link button cannot have a handler"
      >> validate_https_url_required is_https b.url
  validate_button_style unknown_style b = invalid "unsupported button style"
  validate_button_style _ b =
      refuse_if (not (valid_handler b.handler)) "custom button handler is invalid"
      >> refuse_if (not (is_nil b.url)) "custom button cannot have a URL"

  unfoldable pub validate_button : Button → Verdict
  unfolding validate_button_style
  validate_button b =
      refuse_if (over b.label 80) "label exceeds 80 characters"
      >> (validate_button_style b.style b
          >> (refuse_if (is_nil (trim_space b.label) && is_none b.emoji)
                "button requires a label or emoji"
              >> validate_emoji_option b.emoji))

  -- One component of a row of `n` components.
  unfoldable pub validate_component : ℕ → MessageComponent → Verdict
  unfolding validate_button
  validate_component n (button b) = validate_button b
  validate_component n (select m) =
      refuse_if (not (n == 1)) "a select must be the only component in its row" >> validate_select m

  unfoldable pub validate_row : ComponentRow → Verdict
  unfolding validate_component
  validate_row r =
      refuse_if (is_nil r.components || ltb 5 (length r.components))
        "component row must contain 1 to 5 components"
      >> each (validate_component (length r.components)) r.components

  unfoldable pub validate_message : Message → Verdict
  unfolding validate_row
  validate_message m =
      refuse_if (over m.content 2000) "message content exceeds 2000 characters"
      >> (refuse_if (ltb 10 (length m.embeds)) "message exceeds 10 embeds"
          >> (refuse_if (ltb 5 (length m.components)) "message exceeds 5 component rows"
              >> (refuse_if (is_nil m.content && is_nil m.embeds && is_nil m.components)
                    "message is empty"
                  >> (total_verdict (count_embeds is_https m.embeds) 6000
                        "message embed text exceeds 6000 characters"
                      >> each validate_row m.components))))

  unfoldable pub validate_patch_embeds : Option (List Embed) → Verdict
  validate_patch_embeds none = valid
  validate_patch_embeds (some es) =
      refuse_if (ltb 10 (length es)) "message patch exceeds 10 embeds"
      >> total_verdict (count_embeds is_https es) 6000
          "message patch embed text exceeds 6000 characters"

  unfoldable pub validate_patch_rows : Option (List ComponentRow) → Verdict
  unfolding validate_row
  validate_patch_rows none = valid
  validate_patch_rows (some rs) =
      refuse_if (ltb 5 (length rs)) "message patch exceeds 5 component rows" >> each validate_row rs

  abbrev pub patch_content_over : Option GoString → Bool
  patch_content_over none = false
  patch_content_over (some s) = over s 2000

  unfoldable pub validate_patch : MessagePatch → Verdict
  unfolding validate_patch_embeds validate_patch_rows
  validate_patch p =
      refuse_if (is_none p.content && is_none p.embeds && is_none p.components)
        "message patch has no fields"
      >> (refuse_if (patch_content_over p.content) "message patch content exceeds 2000 characters"
          >> (validate_patch_embeds p.embeds >> validate_patch_rows p.components))
