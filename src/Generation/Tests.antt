-- ===== src/Generation/Tests.antt =====
-- Tests of the lifecycle of a generation, and its theorems at concrete inputs.
use go_mamacord.Base.{ℕ, ◌≡◌, refl, false, none, some, List, [], ◌∷◌, arith, length}
use go_mamacord.Generation.{
  open_channel, acquire, finish, begin_drain, release, close_drained, new_generation, Event,
  acquires, drains, releases, finishes, cancels, apply, run, start,
}
use go_mamacord.Generation.Invariant.{IsSoundSession, run-start-IsSound, unfinished}
use go_mamacord.Generation.Drain.{
  acquire-drained, program_kept, finish_all, IsReleasable, drain_finishes,
}

abbrev a_program : ℕ
a_program = 5

-- Two callbacks; the first one finishes twice, the second one is still running when the drain begins
-- and a release is tried.
abbrev busy : List Event
busy = acquires ∷ acquires ∷ finishes 0 ∷ finishes 0 ∷ drains ∷ acquires ∷ releases ∷ []

busy_active : (run (start a_program) busy).generation.active ≡ 1
unfolding run apply start new_generation acquire finish begin_drain release close_drained
busy_active = refl

busy_drained : (run (start a_program) busy).generation.drained ≡ open_channel
unfolding run apply start new_generation acquire finish begin_drain release close_drained
busy_drained = refl

then_released :
    (run (run (start a_program) busy) (finishes 1 ∷ releases ∷ [])).generation.program ≡ none
unfolding run apply start new_generation acquire finish begin_drain release close_drained
then_released = refl

still_busy : unfinished (run (start a_program) busy).onces ≡ 1
unfolding run apply start new_generation acquire finish begin_drain release close_drained
still_busy = refl

run-start-IsSound_example : IsSoundSession a_program (run (start a_program) busy)
run-start-IsSound_example = run-start-IsSound a_program busy

acquire-drained_example :
    acquire (run (apply (start a_program) drains) (finishes 0 ∷ cancels ∷ [])).generation ≡ none
acquire-drained_example = acquire-drained (start a_program) (finishes 0 ∷ cancels ∷ [])

program_kept_example :
    ((run (start a_program) busy).generation.program ≡ some a_program)
    × ((run (start a_program) busy).generation.released ≡ false)
    × (release (run (start a_program) busy).generation ≡ none)
program_kept_example = program_kept a_program busy (omega (arith, still_busy))

drain_finishes_example :
    IsReleasable
      (run
        (apply (run (start a_program) busy) drains)
        (finish_all (length (apply (run (start a_program) busy) drains).onces))).generation
drain_finishes_example = drain_finishes a_program busy
