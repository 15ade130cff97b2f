-- ===== src/Contract/Definition/Options.antt =====
-- definition.go: `validateOptions`.
use go_mamacord.Base.{
  ℕ, ◌-◌, ◌^◌, Bool, false, not, ◌&&◌, ◌||◌, Option, none, some, List, [], ◌∷◌, ltb, ◌==◌,
  if◌then◌else◌, is_nil, length, any, GoString, str_eq, trim_space, to_lower, ℤ, pos, negsuc, ltb_ℤ,
  is_below,
}
use go_mamacord.Contract.Verdict.{Verdict, valid, ◌>>◌, refuse_if, Result, ok, ◌>>=◌, ◌>>>◌}
use go_mamacord.Contract.Value.{Float64, float_lt}
use go_mamacord.Contract.View.{ChannelKind, over}
use go_mamacord.Contract.Components.{valid_channel_kind, channel_code, is_none}
use go_mamacord.Contract.Patterns.{valid_slash_name}
use go_mamacord.Contract.Choices.{ChoiceKind, choice_code, expected_choice, validate_choice_value}
use go_mamacord.Contract.Inputs.{
  OptionKind, string_option, int_option, float_option, channel_option, option_code,
  valid_option_kind,
}
use go_mamacord.Contract.Definition.{ChoiceDefinition, OptionDefinition}
use go_mamacord.Contract.Definition.Checks.{to_autocomplete, Routes, add_route_reference}

abbrev pub max_safe_integer : ℕ
max_safe_integer = 2 ^ 53 - 1

abbrev pub is_unsafe : Option ℤ → Bool
is_unsafe none = false
is_unsafe (some z) = ltb_ℤ z (negsuc (max_safe_integer - 1)) || ltb_ℤ (pos max_safe_integer) z

-- Both are given and the first is greater.
abbrev pub exceeds : Option ℤ → Option ℤ → Bool
exceeds (some a) (some b) = ltb_ℤ b a
exceeds _ _ = false

abbrev pub exceeds_number : Option Float64 → Option Float64 → Bool
exceeds_number (some a) (some b) = float_lt b a
exceeds_number _ _ = false

abbrev pub is_infinite : Option Float64 → Bool
is_infinite none = false
is_infinite (some x) = not x.finite

abbrev pub is_negative : Option ℤ → Bool
is_negative none = false
is_negative (some z) = is_below z 0

abbrev pub has_kind : OptionKind → OptionDefinition → Bool
has_kind k o = option_code o.kind == option_code k

-- The loop over the channel kinds, with those seen.
unfoldable pub validate_option_channels : List ChannelKind → List ChannelKind → Verdict
validate_option_channels seen [] = valid
validate_option_channels seen (k ∷ ks) =
    refuse_if (not (valid_channel_kind k)) "option has unsupported channel kind"
    >> refuse_if (any (λ j. channel_code j == channel_code k) seen) "option repeats channel kind"
    >> validate_option_channels (k ∷ seen) ks

-- The limits of an option.
unfoldable pub validate_limits : OptionDefinition → Verdict
unfolding validate_option_channels
validate_limits o =
    refuse_if
      ((not (is_none o.min_integer) || not (is_none o.max_integer)) && not (has_kind int_option o))
      "option has integer limits for noninteger kind"
    >> refuse_if (is_unsafe o.min_integer) "minimum is outside Discord safe integer range"
    >> refuse_if (is_unsafe o.max_integer) "maximum is outside Discord safe integer range"
    >> refuse_if (exceeds o.min_integer o.max_integer) "integer minimum exceeds maximum"
    >> refuse_if
        ((not (is_none o.min_number) || not (is_none o.max_number))
          && not (has_kind float_option o))
        "option has number limits for nonnumber kind"
    >> refuse_if (is_infinite o.min_number) "number minimum must be finite"
    >> refuse_if (is_infinite o.max_number) "number maximum must be finite"
    >> refuse_if (exceeds_number o.min_number o.max_number) "number minimum exceeds maximum"
    >> refuse_if
        ((not (is_none o.min_length) || not (is_none o.max_length))
          && not (has_kind string_option o))
        "option has length limits for nonstring kind"
    >> refuse_if (is_negative o.min_length || is_negative o.max_length) "length cannot be negative"
    >> refuse_if (exceeds o.min_length o.max_length) "minimum length exceeds maximum"
    >> refuse_if (not (is_nil o.channel_kinds) && not (has_kind channel_option o))
        "option has channel kinds for nonchannel option"
    >> validate_option_channels [] o.channel_kinds

-- An option that autocompletes refers to a route.
unfoldable pub validate_autocomplete : OptionDefinition → Routes → Result Routes
validate_autocomplete o t =
    if is_nil o.autocomplete
    then ok t
    else (refuse_if (is_none (expected_choice o.kind)) "option kind cannot autocomplete"
        >>> refuse_if (not (is_nil o.choices)) "option cannot have choices and autocomplete"
        >>> add_route_reference to_autocomplete o.autocomplete t)

abbrev pub mismatches : Option ChoiceKind → ChoiceKind → Bool
mismatches none k = false
mismatches (some e) k = not (choice_code k == choice_code e)

-- The loop over the choices, with the trimmed names seen.
unfoldable pub validate_choice_definitions :
    OptionKind → List GoString → List ChoiceDefinition → Verdict
validate_choice_definitions k seen [] = valid
validate_choice_definitions k seen (c ∷ cs) =
    refuse_if (is_nil (trim_space c.name) || over (trim_space c.name) 100)
      "choice name must contain 1 to 100 characters"
    >> refuse_if (any (str_eq (trim_space c.name)) seen) "duplicate choice"
    >> validate_choice_value c.value
    >> refuse_if (mismatches (expected_choice k) c.value.kind) "choice kind does not match option"
    >> validate_choice_definitions k (trim_space c.name ∷ seen) cs

-- The head of the body of the loop: the names seen, in lower case, and whether an optional option was
-- seen.
unfoldable pub validate_option_head : (ℕ → ℕ) → List GoString → Bool → OptionDefinition → Verdict
validate_option_head lower seen optional o =
    refuse_if (not (str_eq o.name (trim_space o.name))) "option name has surrounding whitespace"
    >> refuse_if (not (valid_slash_name o.name)) "option has invalid name"
    >> refuse_if (not (valid_option_kind o.kind)) "option has unsupported kind"
    >> refuse_if (is_nil (trim_space o.description)) "option requires a base description"
    >> refuse_if (over o.description 100) "option description exceeds 100 characters"
    >> refuse_if (any (str_eq (to_lower lower o.name)) seen) "duplicate option"
    >> refuse_if (o.required && optional) "required option follows an optional option"

unfoldable pub validate_option_list :
    (ℕ → ℕ) → List GoString → Bool → List OptionDefinition → Routes → Result Routes
unfolding validate_option_head validate_limits validate_autocomplete validate_choice_definitions
validate_option_list lower seen optional [] t = ok t
validate_option_list lower seen optional (o ∷ os) t =
    validate_option_head lower seen optional o
    >>> validate_limits o
    >>> (validate_autocomplete o t >>= λ u.
        refuse_if (ltb 25 (length o.choices)) "option exceeds 25 choices"
        >>> validate_choice_definitions o.kind [] o.choices
        >>> validate_option_list lower (to_lower lower o.name ∷ seen) (optional || not o.required)
            os u)

unfoldable pub validate_option_definitions :
    (ℕ → ℕ) → List OptionDefinition → Routes → Result Routes
unfolding validate_option_list
validate_option_definitions lower os t =
    refuse_if (ltb 25 (length os)) "owner exceeds 25 options"
    >>> validate_option_list lower [] false os t
