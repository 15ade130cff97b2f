-- ===== src/Bundle/Tests.antt =====
-- Tests of labels and of the compilation of a bundle, and the theorems about them at concrete inputs.
use go_mamacord.Base.{
  ◌≡◌, refl, Bool, false, Option, some, List, [], ◌∷◌, GoString, codes, str_eq, byte_len, insert,
  has_rune, ℤ, if◌then◌else◌,
}
use go_mamacord.Contract.Verdict.{Result, ok}
use go_mamacord.Execution.{default_limits, validate_limits, load_error}
use go_mamacord.Bundle.{
  Compiler, refused, compile_bundle, canonical_label, cut_colon, drop_two, is_hidden, entry_label,
}
use go_mamacord.Bundle.Termination.{Ends, IsWithin, compile_bundle-Ends}
use go_mamacord.Bundle.Labels.{IsVisible, canonical_label-same}

abbrev same : GoString → GoString
same s = s

abbrev help_label : GoString
help_label = codes "//lib/text:help.star"

-- The source of a module is the label that it loads.
abbrev read : GoString → ℤ → Result GoString
read label most = if str_eq label entry_label then ok help_label else ok entry_label

abbrev parse : GoString → GoString → Option GoString
parse label source = some source

abbrev loads : GoString → List GoString
loads source = source ∷ []

abbrev never : Compiler GoString → List GoString → GoString → Bool
never c stack label = false

help_accepted : canonical_label same help_label ≡ ok help_label
unfolding canonical_label
help_accepted = refl

-- Two modules that load one another.
cycle_refused : compile_bundle same read parse loads never default_limits ≡ refused load_error
unfolding compile_bundle validate_limits canonical_label byte_len insert
cycle_refused = refl

compile_bundle-Ends_example :
    Ends (IsWithin default_limits) (compile_bundle same read parse loads never default_limits)
compile_bundle-Ends_example = compile_bundle-Ends same read parse loads never default_limits

canonical_label-same_example :
    (help_label ≡ help_label)
    × (has_rune b'/' (cut_colon (drop_two help_label)).1 ≡ false)
    × (is_hidden (cut_colon (drop_two help_label)).1 ≡ false)
    × IsVisible (cut_colon (drop_two help_label)).0
canonical_label-same_example = canonical_label-same same help_label help_label help_accepted
