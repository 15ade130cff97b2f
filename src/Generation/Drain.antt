-- ===== src/Generation/Drain.antt =====
-- Draining and releasing a generation (lifecycle.go).
use go_mamacord.Base.{
  ℕ, zero, suc, ◌<◌, ◌≡◌, refl, Bool, true, false, Option, none, some, List, [], ◌∷◌, arith, length,
  inl, inr, Bool-cases,
}
use go_mamacord.Generation.{
  closed_channel, Generation, cancel_active, close_drained, acquire, finish, begin_drain, release,
  is_unused, mark, Session, Event, acquires, drains, releases, cancels, finishes, apply, run, start,
  with_generation,
}
use go_mamacord.Generation.Invariant.{
  unfinished, IsSound, run-start-IsSound, run-IsSound, apply-IsSound,
}

module _ {P : Type 0} where
  acquire-closed : (g : Generation P) → g.accepting ≡ false → acquire g ≡ none
  unfolding acquire
  acquire-closed g h = ground arith

  release-closed :
      (g h : Generation P) → g.accepting ≡ false → release g ≡ some h → h.accepting ≡ false
  unfolding release
  release-closed g h c e = ground arith

  released-closed :
      (s : Session P) (r : Option (Generation P))
      → release s.generation ≡ r
      → s.generation.accepting ≡ false
      → (with_generation s r).generation.accepting ≡ false
  released-closed s none e h = h
  released-closed s (some g) e h = release-closed s.generation g h e

  finish-accepting : (g : Generation P) → (finish g).accepting ≡ g.accepting
  unfolding finish close_drained
  finish-accepting g = ground arith

  begin_drain-accepting : (g : Generation P) → (begin_drain g).accepting ≡ false
  unfolding begin_drain close_drained
  begin_drain-accepting g = ground arith

  apply-closed :
      (s : Session P) (e : Event)
      → s.generation.accepting ≡ false
      → (apply s e).generation.accepting ≡ false
  unfolding apply cancel_active
  apply-closed s acquires h = rw (acquire-closed s.generation h) h
  apply-closed s drains h = begin_drain-accepting s.generation
  apply-closed s releases h = released-closed s (release s.generation) refl h
  apply-closed s cancels h = h
  apply-closed s (finishes k) h = elim (Bool-cases (is_unused k s.onces)) [
    | inl unused ↦ rw (unused, finish-accepting s.generation) h
    | inr used ↦ rw used h
  ]

  run-closed :
      (s : Session P) (es : List Event)
      → s.generation.accepting ≡ false
      → (run s es).generation.accepting ≡ false
  unfolding run
  run-closed s [] h = h
  run-closed s (e ∷ es) h = run-closed (apply s e) es (apply-closed s e h)

  drains-closed : (s : Session P) → (apply s drains).generation.accepting ≡ false
  unfolding apply
  drains-closed s = begin_drain-accepting s.generation

  -- Once `BeginDrain` was called, no callback is taken on any more, whatever is called later.
  pub acquire-drained :
      (s : Session P) (es : List Event) → acquire (run (apply s drains) es).generation ≡ none
  acquire-drained s es =
      acquire-closed (run (apply s drains) es).generation
        (run-closed (apply s drains) es (drains-closed s))

  -- While a callback has not finished, the generation still has its program and cannot be released.
  pub program_kept :
      (p : P) (es : List Event)
      → let s = run (start p) es in
        0 < unfinished s.onces
        → (s.generation.program ≡ some p)
          × (s.generation.released ≡ false)
          × (release s.generation ≡ none)
  unfolding release
  program_kept p es busy = let sound = run-start-IsSound p es in ground (arith, sound)

-- The number of unfinished callbacks from the `k`-th on.
abbrev unfinished_from : ℕ → List Bool → ℕ
unfinished_from zero ts = unfinished ts
unfinished_from (suc k) [] = 0
unfinished_from (suc k) (t ∷ ts) = unfinished_from k ts

-- Every function that `acquire` returned is called, from the last to the first.
abbrev pub finish_all : ℕ → List Event
finish_all zero = []
finish_all (suc k) = finishes k ∷ finish_all k

unfinished_from-mark :
    (k : ℕ) (ts : List Bool) → unfinished_from k (mark k ts) ≡ unfinished_from (suc k) ts
unfinished_from-mark zero [] = refl
unfinished_from-mark (suc k) [] = refl
unfinished_from-mark zero (t ∷ ts) = refl
unfinished_from-mark (suc k) (t ∷ ts) = unfinished_from-mark k ts

unfinished_from-length : (ts : List Bool) → unfinished_from (length ts) ts ≡ 0
unfinished_from-length [] = refl
unfinished_from-length (t ∷ ts) = unfinished_from-length ts

mark_used : (k : ℕ) (ts : List Bool) → is_unused k ts ≡ false → mark k ts ≡ ts
mark_used k [] h = refl
mark_used zero (true ∷ ts) h = refl
mark_used zero (false ∷ ts) h = cc
mark_used (suc k) (t ∷ ts) h = rw (mark_used k ts h) refl

module _ {P : Type 0} where
  finishes-onces : (s : Session P) (k : ℕ) → (apply s (finishes k)).onces ≡ mark k s.onces
  unfolding apply
  finishes-onces s k = elim (Bool-cases (is_unused k s.onces)) [
    | inl unused ↦ rw unused refl
    | inr used ↦ rw (used, mark_used k s.onces used) refl
  ]

  finish_all-unfinished :
      (k : ℕ) (s : Session P)
      → unfinished_from k s.onces ≡ 0
      → unfinished (run s (finish_all k)).onces ≡ 0
  unfolding run
  finish_all-unfinished zero s h = h
  finish_all-unfinished (suc k) s h =
      finish_all-unfinished k (apply s (finishes k))
        (rw (finishes-onces s k, unfinished_from-mark k s.onces) h)

  drains-onces : (s : Session P) → (apply s drains).onces ≡ s.onces
  unfolding apply
  drains-onces s = refl

  -- What a generation that is drained has reached.
  abbrev pub IsReleasable : Generation P → Type 0
  IsReleasable g = (g.drained ≡ closed_channel) × ((release g ≡ none) → ⊥)

  idle-IsReleasable :
      (p : P) (g : Generation P) → IsSound p 0 g → g.accepting ≡ false → IsReleasable g
  unfolding release
  idle-IsReleasable p g sound closed = (ground (arith, sound), λ e. ground (arith, sound, e))

  -- After any sequence of calls on a new generation, once it drains and every callback has returned,
  -- `drained` is closed and the release succeeds.
  pub drain_finishes :
      (p : P) (es : List Event)
      → let s = apply (run (start p) es) drains in
        IsReleasable (run s (finish_all (length s.onces))).generation
  drain_finishes p es =
      let s = apply (run (start p) es) drains in
      let all = finish_all (length s.onces) in
      let idle = finish_all-unfinished (length s.onces) s (unfinished_from-length s.onces) in
      let sound =
        run-IsSound p s all (apply-IsSound p (run (start p) es) drains (run-start-IsSound p es)) in
      idle-IsReleasable p (run s all).generation (rw idle at sound)
        (run-closed s all (drains-closed (run (start p) es)))
