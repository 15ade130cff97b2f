-- ===== src/Bundle/Termination.antt =====
-- The compilation of a bundle ends, within its limits, whatever its modules load.
use go_mamacord.Base.{
  ◌≡◌, refl, sym, subst, inl, inr, ℕ, zero, suc, ◌+◌, ◌≤◌, ◌<◌, Bool, true, false, Option, none,
  some, List, [], ◌∷◌, ◌++◌, arith, length, length-append, GoString, str_eq, Map, lookup, insert, ℤ,
  pos, negsuc, is_below, magnitude, byte_len, Bool-cases,
}
use go_mamacord.Contract.Verdict.{Verdict, valid, invalid, Result, ok, error}
use go_mamacord.Execution.{
  ErrorKind, canceled, load_error, source_error, validation_error, Limits, validate_limits,
}
use go_mamacord.Bundle.{
  CompileState, compile_active, compile_done, Compiler, new_compiler, Compiled, compiled, refused,
  out_of_fuel, unless, and_then, compile_load, compile_loads, enter_program, enter_source,
  enter_label, compile_module, compile, compile_bundle, api_label, entry_label, canonical_label,
}

length-insert {ℓ} :
    {V : Type ℓ} (k : GoString) (v : V) (m : Map V) → length (insert k v m) ≤ suc (length m)
unfolding insert
length-insert k v [] = omega arith
length-insert k v ((j, w) ∷ m) = ground (arith, length-insert k v m)

not_below : (z : ℤ) (n : ℕ) → is_below z n ≡ false → n ≤ magnitude z
not_below (pos m) n h = ground arith
not_below (negsuc m) n h = cc

-- The result is an error, or a compiler of which the predicate holds.
abbrev pub Ends {ℓ} : {P : Type ℓ} → (Compiler P → Type 0) → Compiled P → Type 0
Ends Q (compiled c) = Q c
Ends Q (refused k) = Unit
Ends Q out_of_fuel = ⊥

-- The sources and the modules are within the limits.
abbrev pub IsWithin {ℓ} : {P : Type ℓ} → Limits → Compiler P → Type 0
IsWithin limits c =
    (c.total_bytes ≤ magnitude limits.max_total_source_bytes)
    × (length c.programs ≤ magnitude limits.max_modules)

unless-Ends {ℓ} :
    {P : Type ℓ} (Q : Compiler P → Type 0) (b : Bool) (k : ErrorKind) (m : Compiled P)
    → (b ≡ false → Ends Q m)
    → Ends Q (unless b k m)
unless-Ends Q true k m h = tt
unless-Ends Q false k m h = h refl

module _ {ℓ} {P : Type ℓ} (clean : GoString → GoString)
    (read_source : GoString → ℤ → Result GoString) (parse : GoString → GoString → Option P)
    (loads_of : P → List GoString) (ended : Compiler P → List GoString → GoString → Bool)
    (limits : Limits) where
  abbrev Q : Compiler P → Type 0
  Q = IsWithin limits

  and_then-Ends :
      (m : Compiled P) (next : Compiler P → Compiled P)
      → Ends Q m
      → ((d : Compiler P) → Q d → Ends Q (next d))
      → Ends Q (and_then m next)
  and_then-Ends (compiled d) next h k = k d h
  and_then-Ends (refused e) next h k = tt
  and_then-Ends out_of_fuel next h k = h

  load-Ends :
      (step next : GoString → Compiler P → Compiled P) (c : Compiler P) (found : Result GoString)
      → ((l : GoString) → Ends Q (step l c))
      → ((l : GoString) (d : Compiler P) → Q d → Ends Q (next l d))
      → Ends Q (compile_load clean read_source parse loads_of ended limits step c next found)
  load-Ends step next c (error e) h k = tt
  load-Ends step next c (ok l) h k = and_then-Ends (step l c) (next l) (h l) (k l)

  loads-Ends :
      (step : GoString → Compiler P → Compiled P) (label : GoString) (seen ls : List GoString)
      (c : Compiler P)
      → ((l : GoString) (d : Compiler P) → Q d → Ends Q (step l d))
      → Q c
      → Ends Q (compile_loads clean read_source parse loads_of ended limits step label seen ls c)
  unfolding compile_loads
  loads-Ends step label seen [] c h q = q
  loads-Ends step label seen (l ∷ ls) c h q =
      let next = λ (x : GoString) (d : Compiler P).
        compile_loads clean read_source parse loads_of ended limits step label (seen ++ (x ∷ [])) ls
          d in
      let later : (x : GoString) (d : Compiler P) → Q d → Ends Q (next x d) =
        λ x d k. loads-Ends step label (seen ++ (x ∷ [])) ls d h k in
      let found = canonical_label clean l in
      let goal = λ (b : Bool). Ends Q (elim b [
        | true ↦ next l c
        | false ↦ compile_load clean read_source parse loads_of ended limits step c next found
      ]) in
      elim (Bool-cases (str_eq l api_label)) [
        | inl y ↦ subst goal (sym y) (later l c q)
        | inr y ↦ subst goal (sym y) (load-Ends step next c found (λ x. h x c q) later)
      ]

  program-Ends :
      (step : GoString → Compiler P → Compiled P) (label source : GoString) (c : Compiler P)
      (p : Option P)
      → ((l : GoString) (d : Compiler P) → Q d → Ends Q (step l d))
      → c.total_bytes + byte_len source ≤ magnitude limits.max_total_source_bytes
      → suc (length c.programs) ≤ magnitude limits.max_modules
      → Ends Q (enter_program clean read_source parse loads_of ended limits step label source c p)
  program-Ends step label source c none h b k = tt
  program-Ends step label source c (some p) h b k =
      loads-Ends step label [] (loads_of p) _ h (b, omega (arith, length-insert label p c.programs))

  label-Ends :
      (step : List GoString → GoString → Compiler P → Compiled P) (stack : List GoString)
      (c : Compiler P) (found : Result GoString)
      → ((top l : GoString) (d : Compiler P) → Q d → Ends Q (step (stack ++ (top ∷ [])) l d))
      → suc (length c.programs) ≤ magnitude limits.max_modules
      → Ends Q (enter_label clean read_source parse loads_of ended limits step stack c found)
  label-Ends step stack c (error e) h k = tt
  label-Ends step stack c (ok label) h k = source-Ends (read_source label limits.max_file_bytes)
    where
      source-Ends :
          (r : Result GoString)
          → Ends Q (
              enter_source clean read_source parse loads_of ended limits
                (step (stack ++ (label ∷ [])))
                label
                c
                r)
      source-Ends (error e) = tt
      source-Ends (ok source) =
          let bytes = c.total_bytes + byte_len source in
          unless-Ends Q (is_below limits.max_total_source_bytes bytes) source_error _ (λ b.
            program-Ends (step (stack ++ (label ∷ []))) label source c (parse label source)
              (h label) (not_below limits.max_total_source_bytes bytes b) k)

  module-Ends :
      (step : List GoString → GoString → Compiler P → Compiled P) (label : GoString)
      (stack : List GoString) (c : Compiler P) (s : Option CompileState)
      → (suc (length stack) ≤ magnitude limits.max_load_depth
          → (top l : GoString) (d : Compiler P) → Q d
          → Ends Q (step (stack ++ (top ∷ [])) l d))
      → Q c
      → Ends Q (compile_module clean read_source parse loads_of ended limits step label stack c s)
  module-Ends step label stack c (some compile_done) h q = q
  module-Ends step label stack c (some compile_active) h q = tt
  module-Ends step label stack c none h q =
      unless-Ends Q (is_below limits.max_load_depth (suc (length stack))) load_error _ (λ deep.
        unless-Ends Q (is_below limits.max_modules (suc (length c.programs))) load_error _ (λ many.
          label-Ends step stack c (canonical_label clean label)
            (h (not_below limits.max_load_depth (suc (length stack)) deep))
            (not_below limits.max_modules (suc (length c.programs)) many)))

  compile-Ends :
      (fuel : ℕ) (stack : List GoString) (label : GoString) (c : Compiler P)
      → 1 ≤ fuel
      → magnitude limits.max_load_depth < length stack + fuel
      → Q c
      → Ends Q (compile clean read_source parse loads_of ended limits fuel stack label c)
  unfolding compile
  compile-Ends zero stack label c one enough q = absurd (omega arith)
  compile-Ends (suc fuel) stack label c one enough q =
      let step = compile clean read_source parse loads_of ended limits fuel in
      unless-Ends Q (ended c stack label) canceled _ (λ _.
        module-Ends step label stack c (lookup label c.states)
          (λ room top l d k.
            compile-Ends fuel (stack ++ (top ∷ [])) l d (omega arith)
              (omega (arith, length-append stack (top ∷ []))) k)
          q)

  -- Whatever the modules of a bundle load, its compilation ends: with an error, or with modules and
  -- source bytes within the limits. It never runs out of the fuel that the limit on the depth of loads
  -- gives.
  pub compile_bundle-Ends :
      Ends (IsWithin limits) (compile_bundle clean read_source parse loads_of ended limits)
  unfolding compile_bundle
  compile_bundle-Ends = go (validate_limits limits)
    where
      go :
          (v : Verdict)
          → Ends Q (elim v [
            | invalid e ↦ refused validation_error
            | valid ↦
                compile clean read_source parse loads_of ended limits
                  (suc (magnitude limits.max_load_depth))
                  []
                  entry_label
                  new_compiler
          ])
      go (invalid e) = tt
      go valid =
          compile-Ends (suc (magnitude limits.max_load_depth)) [] entry_label new_compiler
            (omega arith) (omega arith) (omega arith, omega arith)
