-- ===== src/Generation.antt =====
-- internal/runtime/plugins/starlark/generation/lifecycle.go: the lifecycle of one generation of a
-- plugin's program. Each function below is one critical section under `lifecycleMu`. The program
-- (definition, catalog and routes) is of a type of its own, with nothing known about it.
pub mod Invariant
pub mod Drain
pub mod Manager
mod Tests
use go_mamacord.Base.{
  ℕ, zero, suc, ◌+◌, ◌-◌, Bool, true, false, not, ◌&&◌, ◌||◌, Option, none, some, List, [], ◌∷◌,
  ◌++◌, ◌==◌, if◌then◌else◌,
}

-- A channel that is only ever closed; closing it again panics.
pub data Channel : Type 0 where
  open_channel closed_channel panicked : Channel

abbrev pub close_channel : Channel → Channel
close_channel open_channel = closed_channel
close_channel closed_channel = panicked
close_channel panicked = panicked

-- Why the context of the callbacks was canceled: a deadline passed, or the release.
pub data Cause : Type 0 where
  generation_retired no_cause : Cause

-- `retirement` is the cause that `retireCtx` was canceled with, and `program` is `none` once the
-- fields of `generationProgram` are reset.
pub record Generation (P : Type 0) : Type 0 where
  pub accepting : Bool
  pub active : ℕ
  pub drained : Channel
  pub drain_closed : Bool
  pub released : Bool
  pub retirement : Option Cause
  pub program : Option P

-- A cancel function with a cause: the first cause stays.
abbrev pub cancel_with : Cause → Option Cause → Option Cause
cancel_with c none = some c
cancel_with c (some d) = some d

module _ {P : Type 0} where
  unfoldable pub new_generation : P → Generation P
  new_generation p = record {
    accepting = true;
    active = 0;
    drained = open_channel;
    drain_closed = false;
    released = false;
    retirement = none;
    program = some p;
  }

  unfoldable pub cancel_active : Generation P → Generation P
  cancel_active g = record g { retirement = cancel_with generation_retired g.retirement }

  unfoldable pub close_drained : Generation P → Generation P
  close_drained g =
      if g.accepting || (not (g.active == 0) || g.drain_closed)
      then g
      else record g { drained = close_channel g.drained; drain_closed = true }

  unfoldable pub acquire : Generation P → Option (Generation P)
  acquire g =
      if not g.accepting || g.released then none else some (record g { active = g.active + 1 })

  -- What the function that `acquire` returns does under its `sync.Once`.
  unfoldable pub finish : Generation P → Generation P
  unfolding close_drained
  finish g = close_drained (record g { active = g.active - 1 })

  unfoldable pub begin_drain : Generation P → Generation P
  unfolding close_drained
  begin_drain g = close_drained (record g { accepting = false })

  -- `none` is the error that the generation must drain before its release.
  unfoldable pub release : Generation P → Option (Generation P)
  release g =
      if g.released
      then some g
      else if g.accepting || not (g.active == 0)
      then none
      else some (record g {
        released = true;
        retirement = cancel_with no_cause g.retirement;
        program = none;
      })

-- The `sync.Once` of every function that `acquire` has returned, the oldest first: whether it ran.
abbrev pub is_unused : ℕ → List Bool → Bool
is_unused k [] = false
is_unused zero (t ∷ ts) = not t
is_unused (suc k) (t ∷ ts) = is_unused k ts

abbrev pub mark : ℕ → List Bool → List Bool
mark k [] = []
mark zero (t ∷ ts) = true ∷ ts
mark (suc k) (t ∷ ts) = t ∷ mark k ts

pub record Session (P : Type 0) : Type 0 where
  pub generation : Generation P
  pub onces : List Bool

-- The calls that the callers and the manager make, in any order.
pub data Event : Type 0 where
  acquires drains releases cancels : Event
  finishes : ℕ → Event

module _ {P : Type 0} where
  abbrev pub acquired : Session P → Option (Generation P) → Session P
  acquired s none = s
  acquired s (some g) = record { generation = g; onces = s.onces ++ (false ∷ []) }

  abbrev pub with_generation : Session P → Option (Generation P) → Session P
  with_generation s none = s
  with_generation s (some g) = record s { generation = g }

  unfoldable pub apply : Session P → Event → Session P
  unfolding acquire begin_drain release cancel_active finish
  apply s acquires = acquired s (acquire s.generation)
  apply s drains = record s { generation = begin_drain s.generation }
  apply s releases = with_generation s (release s.generation)
  apply s cancels = record s { generation = cancel_active s.generation }
  apply s (finishes k) =
      if is_unused k s.onces
      then record { generation = finish s.generation; onces = mark k s.onces }
      else s

  unfoldable pub run : Session P → List Event → Session P
  unfolding apply
  run s [] = s
  run s (e ∷ es) = run (apply s e) es

  unfoldable pub start : P → Session P
  unfolding new_generation
  start p = record { generation = new_generation p; onces = [] }
