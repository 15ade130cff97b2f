-- ===== src/Generation/Manager/Tests.antt =====
-- Tests of the manager of generations, and its theorems at concrete inputs.
use go_mamacord.Base.{◌≡◌, refl, true, false, List, [], ◌∷◌, map, arith, codes}
use go_mamacord.Generation.{closed_channel, open_channel}
use go_mamacord.Generation.Manager.{
  Handle, new_manager, begin_retirement, is_draining, replace, activate_locked, close_locked,
  drain_replaced, finish_retirement, Step, activates, closes, drains, finishes, take_step,
  take_steps, activation, retirement_end, serve,
}
use go_mamacord.Generation.Manager.Laws.{
  IsCounted, IsLive, is_stale, repeat, take_steps-IsCounted, serve-IsLive, retired_closes,
}

abbrev old : Handle
old = record { pointer = 1; id = codes "a" }

abbrev next : Handle
next = record { pointer = 2; id = codes "b" }

abbrev upgrade : List Step
upgrade = activates old true ∷ activates next true ∷ drains 0 ∷ closes ∷ finishes ∷ []

upgrade_pending : (take_steps new_manager upgrade).pending ≡ 1
unfolding take_steps take_step activate_locked close_locked drain_replaced finish_retirement replace
    begin_retirement
upgrade_pending = refl

upgrade_retired : (take_steps new_manager upgrade).retired ≡ open_channel
unfolding take_steps take_step activate_locked close_locked drain_replaced finish_retirement replace
    begin_retirement
upgrade_retired = refl

-- The old generation is activated again after it was replaced and before it is drained: it accepts
-- callbacks still, so the activation succeeds, and the drain then leaves a current generation that
-- accepts none.
abbrev reactivation : List Step
reactivation =
    activates old true ∷ activates next true ∷ activates old true ∷ drains 1 ∷ drains 0 ∷ []

reactivation_ready :
    is_draining (take_steps new_manager (activates old true ∷ activates next true ∷ [])) old ≡ false
unfolding take_steps take_step activate_locked replace begin_retirement
reactivation_ready = refl

reactivation_stale :
    is_stale (take_steps new_manager reactivation) (take_steps new_manager reactivation).current
    ≡ true
unfolding take_steps take_step activate_locked drain_replaced replace begin_retirement
reactivation_stale = refl

take_steps-IsCounted_example : IsCounted (take_steps new_manager upgrade)
take_steps-IsCounted_example = take_steps-IsCounted upgrade

serve-IsLive_example :
    IsLive
      (serve new_manager (activation old ∷ activation next ∷ activation old ∷ retirement_end ∷ []))
serve-IsLive_example =
    serve-IsLive (activation old ∷ activation next ∷ activation old ∷ retirement_end ∷ [])

retired_closes_example :
    let n = take_steps (take_steps new_manager upgrade) (map drains (1 ∷ [])) in
    (take_steps n (repeat n.pending finishes)).retired ≡ closed_channel
unfolding take_steps take_step activate_locked close_locked drain_replaced finish_retirement replace
    begin_retirement
retired_closes_example = retired_closes upgrade (1 ∷ []) (omega arith)
