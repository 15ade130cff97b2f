-- ===== src/Contract/Choices.antt =====
-- definition.go and operation.go: the choices of an option, and the choices that answer an
-- autocompletion. Two choices are the same for `choiceIdentity` if their kinds and payloads are.
use go_mamacord.Base.{
  ℕ, Bool, true, not, ◌&&◌, ◌||◌, Option, none, some, List, [], ◌∷◌, ltb, ◌==◌, is_nil, length, any,
  GoString, str_eq, trim_space, ℤ, is_zero_ℤ, eq_ℤ,
}
use go_mamacord.Contract.Verdict.{Verdict, valid, invalid, ◌>>◌, refuse_if}
use go_mamacord.Contract.Value.{Float64, is_nonzero}
use go_mamacord.Contract.View.{over}
use go_mamacord.Contract.Inputs.{OptionKind, string_option, int_option, float_option}

pub data ChoiceKind : Type 0 where
  choice_string choice_integer choice_number unknown_choice : ChoiceKind

abbrev pub choice_code : ChoiceKind → ℕ
choice_code choice_string = 0
choice_code choice_integer = 1
choice_code choice_number = 2
choice_code unknown_choice = 3

pub record ChoiceValue : Type 0 where
  pub kind : ChoiceKind
  pub string : GoString
  pub integer : ℤ
  pub number : Float64

abbrev pub validate_choice_payload : ChoiceKind → ChoiceValue → Verdict
validate_choice_payload choice_string v =
    refuse_if (over v.string 100) "string choice must be valid UTF-8 and at most 100 characters"
    >> refuse_if (not (is_zero_ℤ v.integer) || is_nonzero v.number)
        "string choice contains inactive payload"
validate_choice_payload choice_integer v =
    refuse_if (not (is_nil v.string) || is_nonzero v.number)
      "integer choice contains inactive payload"
validate_choice_payload choice_number v =
    refuse_if (not v.number.finite) "number choice must be finite"
    >> refuse_if (not (is_nil v.string) || not (is_zero_ℤ v.integer))
        "number choice contains inactive payload"
validate_choice_payload unknown_choice v = invalid "unsupported choice kind"

unfoldable pub validate_choice_value : ChoiceValue → Verdict
validate_choice_value v = validate_choice_payload v.kind v

pub record AutocompleteChoice : Type 0 where
  pub name : GoString
  pub value : ChoiceValue

abbrev pub same_payload : ChoiceKind → ChoiceValue → ChoiceValue → Bool
same_payload choice_string a b = str_eq a.string b.string
same_payload choice_integer a b = eq_ℤ a.integer b.integer
same_payload choice_number a b = a.number.bits == b.number.bits
same_payload unknown_choice a b = true

-- `choiceIdentity(a) == choiceIdentity(b)`
abbrev pub same_identity : ChoiceValue → ChoiceValue → Bool
same_identity a b = choice_code a.kind == choice_code b.kind && same_payload a.kind a b

abbrev pub expected_choice : OptionKind → Option ChoiceKind
expected_choice string_option = some choice_string
expected_choice int_option = some choice_integer
expected_choice float_option = some choice_number
expected_choice _ = none

abbrev pub check_choice_kind : Option ChoiceKind → ChoiceKind → Verdict
check_choice_kind none k = invalid "option kind cannot autocomplete"
check_choice_kind (some e) k =
    refuse_if (not (choice_code e == choice_code k)) "choice kind does not match option kind"

-- The loop over the choices, with the values seen.
unfoldable pub validate_choice_list :
    OptionKind → List ChoiceValue → List AutocompleteChoice → Verdict
unfolding validate_choice_value
validate_choice_list k seen [] = valid
validate_choice_list k seen (c ∷ cs) =
    refuse_if (is_nil (trim_space c.name) || over c.name 100)
      "choice name must contain 1 to 100 characters"
    >> (validate_choice_value c.value
        >> (check_choice_kind (expected_choice k) c.value.kind
            >> (refuse_if (any (same_identity c.value) seen) "duplicate autocomplete choice"
                >> validate_choice_list k (c.value ∷ seen) cs)))

unfoldable pub validate_choices : OptionKind → List AutocompleteChoice → Verdict
unfolding validate_choice_list
validate_choices k cs =
    refuse_if (ltb 25 (length cs)) "autocomplete exceeds 25 choices" >> validate_choice_list k [] cs
