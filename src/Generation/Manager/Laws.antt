-- ===== src/Generation/Manager/Laws.antt =====
-- The retirements that a manager waits for, and the generation that is current (manager.go).
use go_mamacord.Base.{
  ℕ, zero, suc, ◌+◌, ◌≡◌, refl, Bool, false, Option, none, some, List, [], ◌∷◌, arith, ◌==◌,
  if◌then◌else◌, length, map, ◌-◌, ◌≤◌,
}
use go_mamacord.Generation.{open_channel, closed_channel}
use go_mamacord.Generation.Manager.{
  Handle, Manager, new_manager, begin_retirement, is_draining, replace, activate_locked,
  close_locked, others, drain_replaced, finish_retirement, Step, activates, closes, drains,
  finishes, take_step, take_steps, activate, close, Call, activation, closing, retirement_end,
  serve,
}

-- `pending` counts the retirements that were begun and have not ended, and `retired` is closed exactly
-- when there is none; it was never closed twice.
abbrev pub IsCounted : Manager → Type 0
IsCounted m =
    (m.pending ≡ length m.replaced + m.retiring)
    × (m.retired ≡ (if m.pending == 0 then closed_channel else open_channel))

replace-IsCounted : (h : Option Handle) (m : Manager) → IsCounted m → IsCounted (replace h m)
unfolding replace begin_retirement
replace-IsCounted none m c = c
replace-IsCounted (some h) m c = ground arith

activate_locked-IsCounted :
    (m : Manager) (g : Handle) (ready : Bool)
    → IsCounted m
    → IsCounted (activate_locked m g ready).0
unfolding activate_locked
activate_locked-IsCounted m g ready c =
    let next = replace-IsCounted m.current m c in ground (arith, next)

length-others : (k p : ℕ) (ps : List ℕ) → length (others k p ps) ≡ length ps
unfolding others
length-others zero p ps = refl
length-others (suc k) p [] = refl
length-others (suc k) p (q ∷ ps) = omega (arith, length-others k q ps)

-- A drain takes one generation, if there is one, from those replaced to those retiring.
abbrev Moves : ℕ → Manager → Type 0
Moves k m =
    let n = drain_replaced k m in
    (length n.replaced ≡ length m.replaced - 1)
    × (n.pending ≡ m.pending)
    × (n.retired ≡ m.retired)
    × (length n.replaced + n.retiring ≡ length m.replaced + m.retiring)

drain_replaced-Moves : (k : ℕ) (m : Manager) (l : List ℕ) → m.replaced ≡ l → Moves k m
unfolding drain_replaced
drain_replaced-Moves k m [] e = ground arith
drain_replaced-Moves k m (p ∷ ps) e = ground (arith, length-others k p ps)

drain_replaced-IsCounted : (k : ℕ) (m : Manager) → IsCounted m → IsCounted (drain_replaced k m)
drain_replaced-IsCounted k m c =
    let (_, pending, retired, total) = drain_replaced-Moves k m m.replaced refl in ground arith

finish_retirement-IsCounted : (m : Manager) → IsCounted m → IsCounted (finish_retirement m)
unfolding finish_retirement
finish_retirement-IsCounted m c = ground arith

take_step-IsCounted : (m : Manager) (s : Step) → IsCounted m → IsCounted (take_step m s)
unfolding take_step close_locked
take_step-IsCounted m (activates g ready) c = activate_locked-IsCounted m g ready c
take_step-IsCounted m closes c = replace-IsCounted m.current m c
take_step-IsCounted m (drains k) c = drain_replaced-IsCounted k m c
take_step-IsCounted m finishes c = finish_retirement-IsCounted m c

steps-IsCounted : (m : Manager) (ss : List Step) → IsCounted m → IsCounted (take_steps m ss)
unfolding take_steps
steps-IsCounted m [] c = c
steps-IsCounted m (s ∷ ss) c = steps-IsCounted (take_step m s) ss (take_step-IsCounted m s c)

-- In any interleaving of calls of `Activate` and `Close` and of the goroutines that they start,
-- `pending` counts the retirements that were begun and have not ended, and `retired` is closed
-- exactly when there is none, and never twice.
pub take_steps-IsCounted : (ss : List Step) → IsCounted (take_steps new_manager ss)
take_steps-IsCounted ss = steps-IsCounted new_manager ss (refl, refl)

-- The current generation was not drained, and no generation waits for its drain.
abbrev pub is_stale : Manager → Option Handle → Bool
is_stale m none = false
is_stale m (some g) = is_draining m g

abbrev pub IsLive : Manager → Type 0
IsLive m = (is_stale m m.current ≡ false) × (m.replaced ≡ [])

activate-IsLive : (m : Manager) (g : Handle) → IsLive m → IsLive (activate m g)
unfolding activate activate_locked drain_replaced replace begin_retirement
activate-IsLive m g live = ground arith

close-IsLive : (m : Manager) → IsLive m → IsLive (close m)
unfolding close close_locked drain_replaced replace begin_retirement
close-IsLive m live = ground arith

finish_retirement-IsLive : (m : Manager) → IsLive m → IsLive (finish_retirement m)
unfolding finish_retirement
finish_retirement-IsLive m live = ground arith

serve_from-IsLive : (m : Manager) (cs : List Call) → IsLive m → IsLive (serve m cs)
unfolding serve
serve_from-IsLive m [] live = live
serve_from-IsLive m (activation g ∷ cs) live =
    serve_from-IsLive (activate m g) cs (activate-IsLive m g live)
serve_from-IsLive m (closing ∷ cs) live = serve_from-IsLive (close m) cs (close-IsLive m live)
serve_from-IsLive m (retirement_end ∷ cs) live =
    serve_from-IsLive (finish_retirement m) cs (finish_retirement-IsLive m live)

-- As long as no two calls of `Activate` and `Close` interleave, the generation that is current never
-- was drained.
pub serve-IsLive : (cs : List Call) → IsLive (serve new_manager cs)
serve-IsLive cs = serve_from-IsLive new_manager cs (refl, refl)

abbrev pub repeat : ℕ → Step → List Step
repeat zero s = []
repeat (suc n) s = s ∷ repeat n s

drains-pending :
    (ks : List ℕ) (m : Manager)
    → length m.replaced ≤ length ks
    → (length (take_steps m (map drains ks)).replaced ≡ 0)
      × ((take_steps m (map drains ks)).pending ≡ m.pending)
unfolding take_steps take_step
drains-pending [] m h = (omega arith, refl)
drains-pending (k ∷ ks) m h =
    let (left, pending, _, _) = drain_replaced-Moves k m m.replaced refl in
    let ih = drains-pending ks (drain_replaced k m) (omega arith) in (ih.0, omega arith)

finishes-pending :
    (n : ℕ) (m : Manager)
    → IsCounted m
    → length m.replaced ≡ 0
    → m.pending ≡ n
    → (take_steps m (repeat n finishes)).pending ≡ 0
unfolding take_steps take_step finish_retirement
finishes-pending zero m c r h = h
finishes-pending (suc n) m c r h =
    finishes-pending n (finish_retirement m) (finish_retirement-IsCounted m c) (ground arith)
      (ground arith)

counted_closed : (m : Manager) → IsCounted m → m.pending ≡ 0 → m.retired ≡ closed_channel
counted_closed m c h = ground arith

-- After any interleaving, once every replaced generation was drained, in any order, and every goroutine
-- that retires one has ended, the channel that `Close` waits for is closed.
pub retired_closes :
    (ss : List Step) (order : List ℕ)
    → length (take_steps new_manager ss).replaced ≤ length order
    → let n = take_steps (take_steps new_manager ss) (map drains order) in
      (take_steps n (repeat n.pending finishes)).retired ≡ closed_channel
retired_closes ss order enough =
    let m = take_steps new_manager ss in
    let n = take_steps m (map drains order) in
    let c = steps-IsCounted m (map drains order) (take_steps-IsCounted ss) in
    let empty = (drains-pending order m enough).0 in
    counted_closed (take_steps n (repeat n.pending finishes))
      (steps-IsCounted n (repeat n.pending finishes) c) (finishes-pending n.pending n c empty refl)
