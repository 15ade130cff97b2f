-- ===== src/Bundle.antt =====
-- internal/runtime/plugins/starlark/compile: labels of modules (bundle.go) and the compilation of a
-- bundle with the modules that it loads (loader.go). The reading of a source, the Starlark compiler and
-- `path.Clean` are parameters, and so is whether the context has ended at a call. The fuel of `compile`
-- is one more than the limit on the depth of loads.
pub mod Termination
pub mod Labels
mod Tests
use go_mamacord.Base.{
  ℕ, zero, suc, ◌+◌, Bool, true, false, not, ◌&&◌, ◌||◌, Option, none, some, List, [], ◌∷◌, ◌++◌,
  if◌then◌else◌, ◌==◌, any, is_nil, length, GoString, codes, str_eq, has_prefix, split_on, has_rune,
  byte_len, Map, lookup, insert, ℤ, is_below, magnitude,
}
use go_mamacord.Contract.Verdict.{
  Verdict, valid, invalid, refuse_if, ◌>>◌, Result, ok, error, ◌>>>◌,
}
use go_mamacord.Execution.{
  ErrorKind, canceled, load_error, source_error, compile_error, validation_error, Limits,
  validate_limits,
}

abbrev pub api_label : GoString
api_label = codes "@mamacord//api.star"

abbrev pub entry_label : GoString
entry_label = codes "//:plugin.star"

abbrev pub cut_if : Bool → ℕ → GoString → GoString × GoString → GoString × GoString
cut_if true c s rest = ([], s)
cut_if false c s rest = (c ∷ rest.0, rest.1)

-- `strings.Cut(s, ":")` of a text that has a colon.
unfoldable pub cut_colon : GoString → GoString × GoString
cut_colon [] = ([], [])
cut_colon (c ∷ s) = cut_if (c == b':') c s (cut_colon s)

unfoldable pub count_of : ℕ → GoString → ℕ
count_of x [] = 0
count_of x (c ∷ s) = (if c == x then 1 else 0) + count_of x s

unfoldable pub ends_in : GoString → GoString → Bool
ends_in end [] = is_nil end
ends_in end (c ∷ s) = str_eq end (c ∷ s) || ends_in end s

abbrev pub is_hidden : GoString → Bool
is_hidden s = has_prefix s (b'.' ∷ [])

abbrev pub drop_two : GoString → GoString
drop_two (a ∷ b ∷ s) = s
drop_two s = s

module _ (clean : GoString → GoString) where
  abbrev pub validate_directory : GoString → Verdict
  validate_directory [] = valid
  validate_directory (c ∷ s) =
      refuse_if (c == b'/' || not (str_eq (clean (c ∷ s)) (c ∷ s)))
        "bundle label directory is not canonical"
      >> refuse_if (any (λ part. is_nil part || is_hidden part) (split_on b'/' (c ∷ s)))
          "bundle label contains an invalid directory component"

  abbrev pub validate_parts : GoString × GoString → Result GoString
  validate_parts parts =
      refuse_if (is_nil parts.1) "bundle label filename is required"
      >>> refuse_if
          (has_rune b'/' parts.1 || is_hidden parts.1 || not (ends_in (codes ".star") parts.1))
          "bundle label must name a visible .star file"
      >>> validate_directory parts.0
      >>> ok (codes "//" ++ (parts.0 ++ (b':' ∷ parts.1)))

  -- `CanonicalBundleLabel`
  unfoldable pub canonical_label : GoString → Result GoString
  unfolding split_on has_rune cut_colon count_of ends_in has_prefix
  canonical_label raw =
      refuse_if (str_eq raw api_label) "host API label is not a bundle source"
      >>> refuse_if (has_rune 0 raw || has_rune b'\\' raw)
          "bundle label contains an invalid character"
      >>> refuse_if (not (has_prefix raw (codes "//"))) "bundle label must start with //"
      >>> refuse_if (not (count_of b':' (drop_two raw) == 1))
          "bundle label must contain exactly one colon"
      >>> validate_parts (cut_colon (drop_two raw))

pub data CompileState : Type 0 where
  compile_active compile_done : CompileState

-- The fields of `bundleCompiler` that change; a module that is not in `states` is unseen.
pub record Compiler {ℓ} (P : Type ℓ) : Type ℓ where
  pub programs : Map P
  pub loads : Map (List GoString)
  pub states : Map CompileState
  pub total_bytes : ℕ

abbrev pub new_compiler {ℓ} : {P : Type ℓ} → Compiler P
new_compiler = record { programs = []; loads = []; states = []; total_bytes = 0 }

pub data Compiled {ℓ} (P : Type ℓ) : Type ℓ where
  compiled : Compiler P → Compiled P
  refused : ErrorKind → Compiled P
  out_of_fuel : Compiled P

abbrev pub unless {ℓ} : {P : Type ℓ} → Bool → ErrorKind → Compiled P → Compiled P
unless true k m = refused k
unless false k m = m

-- `if err := first; err != nil { return err }`
abbrev pub and_then {ℓ} : {P : Type ℓ} → Compiled P → (Compiler P → Compiled P) → Compiled P
and_then (compiled c) next = next c
and_then (refused k) next = refused k
and_then out_of_fuel next = out_of_fuel

module _ {ℓ} {P : Type ℓ} (clean : GoString → GoString)
    (read_source : GoString → ℤ → Result GoString) (parse : GoString → GoString → Option P)
    (loads_of : P → List GoString) (ended : Compiler P → List GoString → GoString → Bool)
    (limits : Limits) where
  abbrev pub Step : Type ℓ
  Step = GoString → Compiler P → Compiled P

  -- One load of a module: it is compiled, unless its label is not canonical.
  abbrev pub compile_load : Step → Compiler P → Step → Result GoString → Compiled P
  compile_load step c next (error e) = refused load_error
  compile_load step c next (ok found) = and_then (step found c) (next found)

  -- The loop over the loads of a module; `step` compiles one, and `seen` are the loads so far.
  unfoldable pub compile_loads :
      Step → GoString → List GoString → List GoString → Compiler P → Compiled P
  compile_loads step label seen [] c =
      compiled (record c {
        loads = insert label seen c.loads;
        states = insert label compile_done c.states;
      })
  compile_loads step label seen (l ∷ ls) c =
      let next =
        λ (x : GoString) (d : Compiler P). compile_loads step label (seen ++ (x ∷ [])) ls d in
      elim (str_eq l api_label) [
        | true ↦ next l c
        | false ↦ compile_load step c next (canonical_label clean l)
      ]

  -- A module that was read and compiled, with its loads.
  abbrev pub enter_program : Step → GoString → GoString → Compiler P → Option P → Compiled P
  enter_program step label source c none = refused compile_error
  enter_program step label source c (some p) = compile_loads step label [] (loads_of p) (record c {
    programs = insert label p c.programs;
    states = insert label compile_active c.states;
    total_bytes = c.total_bytes + byte_len source;
  })

  abbrev pub enter_source : Step → GoString → Compiler P → Result GoString → Compiled P
  enter_source step label c (error e) = refused source_error
  enter_source step label c (ok source) =
      unless (is_below limits.max_total_source_bytes (c.total_bytes + byte_len source)) source_error
        (enter_program step label source c (parse label source))

  -- The canonical label goes on the stack.
  abbrev pub enter_label :
      (List GoString → Step) → List GoString → Compiler P → Result GoString → Compiled P
  enter_label step stack c (error e) = refused load_error
  enter_label step stack c (ok label) =
      enter_source (step (stack ++ (label ∷ []))) label c (read_source label limits.max_file_bytes)

  abbrev pub compile_module :
      (List GoString → Step)
      → GoString
      → List GoString
      → Compiler P
      → Option CompileState
      → Compiled P
  compile_module step label stack c (some compile_done) = compiled c
  compile_module step label stack c (some compile_active) = refused load_error
  compile_module step label stack c none =
      unless (is_below limits.max_load_depth (suc (length stack))) load_error (
        unless (is_below limits.max_modules (suc (length c.programs))) load_error
          (enter_label step stack c (canonical_label clean label)))

  -- `bundleCompiler.compile`
  unfoldable pub compile : ℕ → List GoString → GoString → Compiler P → Compiled P
  unfolding compile_loads
  compile zero stack label c = out_of_fuel
  compile (suc fuel) stack label c =
      unless (ended c stack label) canceled
        (compile_module (compile fuel) label stack c (lookup label c.states))

  -- `CompileBundle` of a bundle that is not nil.
  unfoldable pub compile_bundle : Compiled P
  unfolding compile
  compile_bundle = elim (validate_limits limits) [
    | invalid e ↦ refused validation_error
    | valid ↦ compile (suc (magnitude limits.max_load_depth)) [] entry_label new_compiler
  ]
