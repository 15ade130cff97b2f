-- ===== src/Contract/View.antt =====
-- operation.go, the views: messages, patches, embeds, component rows and modals, and their
-- validation. The parameter `is_https` says of a text whether net/url parses it with the scheme https
-- and a host. A text's characters are its code points. Pointers to components are not nil here.
use go_mamacord.Base.{
  ℕ, ◌+◌, Bool, not, ◌&&◌, ◌||◌, Option, none, some, String, List, [], ◌∷◌, ltb, if◌then◌else◌,
  is_nil, length, GoString, trim_space, ℤ, is_below, is_above,
}
use go_mamacord.Contract.Verdict.{Verdict, valid, invalid, ◌>>◌, refuse_if, each}

pub record EmbedField : Type 0 where
  pub name : GoString
  pub value : GoString
  pub inline : Bool

pub record EmbedAuthor : Type 0 where
  pub name : GoString
  pub url : GoString
  pub icon_url : GoString

pub record EmbedFooter : Type 0 where
  pub text : GoString
  pub icon_url : GoString

pub record Embed : Type 0 where
  pub title : GoString
  pub description : GoString
  pub url : GoString
  pub color : ℤ
  pub fields : List EmbedField
  pub author : Option EmbedAuthor
  pub footer : Option EmbedFooter
  pub image_url : GoString
  pub thumbnail_url : GoString

pub record Emoji : Type 0 where
  pub id : GoString
  pub name : GoString
  pub animated : Bool

-- `unknown_style` is any other text.
pub data ButtonStyle : Type 0 where
  primary secondary success danger link unknown_style : ButtonStyle

pub record Button : Type 0 where
  pub handler : GoString
  pub label : GoString
  pub style : ButtonStyle
  pub url : GoString
  pub emoji : Option Emoji
  pub disabled : Bool

pub data SelectKind : Type 0 where
  string_select user_select role_select mentionable_select channel_select unknown_select :
      SelectKind

pub data ChannelKind : Type 0 where
  text_channel voice_channel category_channel announcement_channel : ChannelKind
  stage_channel forum_channel media_channel unknown_channel : ChannelKind

pub record SelectOption : Type 0 where
  pub label : GoString
  pub value : GoString
  pub description : GoString
  pub emoji : Option Emoji
  pub default : Bool

pub record Select : Type 0 where
  pub handler : GoString
  pub kind : SelectKind
  pub placeholder : GoString
  pub min_values : ℤ
  pub max_values : ℤ
  pub disabled : Bool
  pub options : List SelectOption
  pub channel_kinds : List ChannelKind

pub data MessageComponent : Type 0 where
  button : Button → MessageComponent
  select : Select → MessageComponent

pub record ComponentRow : Type 0 where
  pub components : List MessageComponent

pub record Message : Type 0 where
  pub content : GoString
  pub embeds : List Embed
  pub components : List ComponentRow

-- A field of a patch is `none` where `Set` is false.
pub record MessagePatch : Type 0 where
  pub content : Option GoString
  pub embeds : Option (List Embed)
  pub components : Option (List ComponentRow)

pub data TextInputStyle : Type 0 where
  short paragraph unknown_input : TextInputStyle

pub record TextInput : Type 0 where
  pub id : GoString
  pub label : GoString
  pub style : TextInputStyle
  pub placeholder : GoString
  pub value : GoString
  pub required : Bool
  pub min_length : ℤ
  pub max_length : ℤ

pub record ModalView : Type 0 where
  pub handler : GoString
  pub title : GoString
  pub fields : List TextInput

abbrev pub over : GoString → ℕ → Bool
over s n = ltb n (length s)

unfoldable pub validate_emoji : Emoji → Verdict
validate_emoji e =
    refuse_if (is_nil (trim_space e.id) && is_nil (trim_space e.name)) "emoji requires id or name"
    >> refuse_if (over e.name 32) "emoji name exceeds 32 characters"

abbrev pub validate_emoji_option : Option Emoji → Verdict
validate_emoji_option none = valid
validate_emoji_option (some e) = validate_emoji e

-- A count of characters, or an error.
pub data Counted : Type 0 where
  counted : ℕ → Counted
  uncounted : String → Counted

infixr 5 ◌>>#◌
abbrev pub ◌>>#◌ : Verdict → Counted → Counted
valid >># c = c
invalid e >># c = uncounted e

abbrev pub add_count : ℕ → Counted → Counted
add_count n (counted m) = counted (n + m)
add_count n (uncounted e) = uncounted e

abbrev pub total_verdict : Counted → ℕ → String → Verdict
total_verdict (counted n) limit text = refuse_if (ltb limit n) text
total_verdict (uncounted e) limit text = invalid e

abbrev pub validate_embed_field : EmbedField → Verdict
validate_embed_field f =
    refuse_if (is_nil f.name || over f.name 256) "field name must contain 1 to 256 characters"
    >> refuse_if (is_nil f.value || over f.value 1024)
        "field value must contain 1 to 1024 characters"

unfoldable pub count_fields : List EmbedField → Counted
count_fields [] = counted 0
count_fields (f ∷ fs) =
    validate_embed_field f >># add_count (length f.name + length f.value) (count_fields fs)

module _ (is_https : GoString → Bool) where
  unfoldable pub validate_https_url : GoString → Verdict
  validate_https_url raw =
      if is_nil raw then valid else refuse_if (not (is_https raw)) "URL must be absolute HTTPS"

  unfoldable pub validate_https_url_required : GoString → Verdict
  unfolding validate_https_url
  validate_https_url_required raw =
      refuse_if (is_nil raw) "URL is required" >> validate_https_url raw

  unfoldable pub count_author : Option EmbedAuthor → Counted
  unfolding validate_https_url
  count_author none = counted 0
  count_author (some a) =
      refuse_if (is_nil a.name || over a.name 256) "author name must contain 1 to 256 characters"
      >># (validate_https_url a.url >># (validate_https_url a.icon_url >># counted (length a.name)))

  unfoldable pub count_footer : Option EmbedFooter → Counted
  unfolding validate_https_url
  count_footer none = counted 0
  count_footer (some f) =
      refuse_if (is_nil f.text || over f.text 2048) "footer text must contain 1 to 2048 characters"
      >># (validate_https_url f.icon_url >># counted (length f.text))

  -- The counts of two parts, where the first error wins.
  abbrev pub plus : Counted → Counted → Counted
  plus (counted n) c = add_count n c
  plus (uncounted e) c = uncounted e

  unfoldable pub validate_embed : Embed → Counted
  unfolding validate_https_url count_author count_footer count_fields
  validate_embed e =
      refuse_if (is_below e.color 0 || is_above e.color 0xFFFFFF) "color is outside RGB range"
      >># (refuse_if (over e.title 256) "title exceeds 256 characters"
          >># (refuse_if (over e.description 4096) "description exceeds 4096 characters"
              >># (refuse_if (ltb 25 (length e.fields)) "embed exceeds 25 fields"
                  >># (each validate_https_url (e.url ∷ e.image_url ∷ e.thumbnail_url ∷ [])
                      >># plus (counted (length e.title + length e.description)) (
                          plus (count_fields e.fields)
                            (plus (count_author e.author) (count_footer e.footer)))))))

  unfoldable pub count_embeds : List Embed → Counted
  unfolding validate_embed
  count_embeds [] = counted 0
  count_embeds (e ∷ es) = plus (validate_embed e) (count_embeds es)
