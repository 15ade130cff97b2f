-- ===== src/Generation/Invariant.antt =====
-- What holds of a generation after any sequence of calls (lifecycle.go).
use go_mamacord.Base.{
  ℕ, zero, suc, ◌+◌, ◌≡◌, refl, Bool, true, false, not, ◌&&◌, Option, none, some, List, [], ◌∷◌,
  ◌++◌, arith, ◌==◌, if◌then◌else◌, inl, inr, Bool-cases,
}
use go_mamacord.Generation.{
  open_channel, closed_channel, Generation, new_generation, cancel_active, close_drained, acquire,
  finish, begin_drain, release, is_unused, mark, Session, Event, acquires, drains, releases,
  cancels, finishes, apply, run, start, acquired, with_generation,
}

-- The number of callbacks that have not finished.
abbrev pub unfinished : List Bool → ℕ
unfinished [] = 0
unfinished (true ∷ ts) = unfinished ts
unfinished (false ∷ ts) = suc (unfinished ts)

unfinished-append : (ts : List Bool) → unfinished (ts ++ (false ∷ [])) ≡ unfinished ts + 1
unfinished-append [] = omega arith
unfinished-append (true ∷ ts) = unfinished-append ts
unfinished-append (false ∷ ts) = omega (arith, unfinished-append ts)

unfinished-mark :
    (k : ℕ) (ts : List Bool) → is_unused k ts ≡ true → unfinished ts ≡ unfinished (mark k ts) + 1
unfinished-mark k [] h = cc
unfinished-mark zero (true ∷ ts) h = cc
unfinished-mark zero (false ∷ ts) h = omega arith
unfinished-mark (suc k) (true ∷ ts) h = unfinished-mark k ts h
unfinished-mark (suc k) (false ∷ ts) h = omega (arith, unfinished-mark k ts h)

module _ {P : Type 0} (p : P) where
  -- What the lifecycle of a generation with the program `p` keeps true, for a number of callbacks that
  -- have not finished.
  abbrev pub IsSound : ℕ → Generation P → Type 0
  IsSound n g =
      (g.active ≡ n)
      × (g.drain_closed ≡ (not g.accepting && (g.active == 0)))
      × (g.drained ≡ (if g.drain_closed then closed_channel else open_channel))
      × (g.released ≡ true → g.drain_closed ≡ true)
      × (g.program ≡ (if g.released then none else some p))

  acquire-IsSound :
      (n : ℕ) (g h : Generation P) → IsSound n g → acquire g ≡ some h → IsSound (n + 1) h
  unfolding acquire
  acquire-IsSound n g h s e = ground arith

  finish-IsSound : (n : ℕ) (g : Generation P) → IsSound (n + 1) g → IsSound n (finish g)
  unfolding finish close_drained
  finish-IsSound n g s = ground arith

  begin_drain-IsSound : (n : ℕ) (g : Generation P) → IsSound n g → IsSound n (begin_drain g)
  unfolding begin_drain close_drained
  begin_drain-IsSound n g s = ground arith

  release-IsSound : (n : ℕ) (g h : Generation P) → IsSound n g → release g ≡ some h → IsSound n h
  unfolding release
  release-IsSound n g h s e = ground arith

  cancel_active-IsSound : (n : ℕ) (g : Generation P) → IsSound n g → IsSound n (cancel_active g)
  unfolding cancel_active
  cancel_active-IsSound n g s = s

  abbrev pub IsSoundSession : Session P → Type 0
  IsSoundSession s = IsSound (unfinished s.onces) s.generation

  acquired-IsSound :
      (s : Session P) (r : Option (Generation P))
      → acquire s.generation ≡ r
      → IsSoundSession s
      → IsSoundSession (acquired s r)
  acquired-IsSound s none e h = h
  acquired-IsSound s (some g) e h =
      rw (unfinished-append s.onces) (acquire-IsSound (unfinished s.onces) s.generation g h e)

  released-IsSound :
      (s : Session P) (r : Option (Generation P))
      → release s.generation ≡ r
      → IsSoundSession s
      → IsSoundSession (with_generation s r)
  released-IsSound s none e h = h
  released-IsSound s (some g) e h = release-IsSound (unfinished s.onces) s.generation g h e

  pub apply-IsSound : (s : Session P) (e : Event) → IsSoundSession s → IsSoundSession (apply s e)
  unfolding apply
  apply-IsSound s acquires h = acquired-IsSound s (acquire s.generation) refl h
  apply-IsSound s drains h = begin_drain-IsSound (unfinished s.onces) s.generation h
  apply-IsSound s releases h = released-IsSound s (release s.generation) refl h
  apply-IsSound s cancels h = cancel_active-IsSound (unfinished s.onces) s.generation h
  apply-IsSound s (finishes k) h = elim (Bool-cases (is_unused k s.onces)) [
    | inl unused ↦ rw unused (
        finish-IsSound (unfinished (mark k s.onces)) s.generation
          (rw (unfinished-mark k s.onces unused) at h))
    | inr used ↦ rw used h
  ]

  pub run-IsSound : (s : Session P) (es : List Event) → IsSoundSession s → IsSoundSession (run s es)
  unfolding run
  run-IsSound s [] h = h
  run-IsSound s (e ∷ es) h = run-IsSound (apply s e) es (apply-IsSound s e h)

  start-IsSound : IsSoundSession (start p)
  unfolding start new_generation
  start-IsSound = (refl, refl, refl, λ h. cc, refl)

  -- After any sequence of calls on a new generation: `active` is the number of callbacks that have not
  -- finished, `drained` is closed exactly when the generation accepts no callback and none runs, it was
  -- never closed twice, only a drained generation is released, and the program is kept until then.
  pub run-start-IsSound : (es : List Event) → IsSoundSession (run (start p) es)
  run-start-IsSound es = run-IsSound (start p) es start-IsSound
