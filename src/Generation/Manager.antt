-- ===== src/Generation/Manager.antt =====
-- internal/runtime/plugins/starlark/generation/manager.go: which generation is current, and the
-- retirements of those before it. A generation is known by its pointer and its id. The steps are the
-- critical sections under `mu` and what a call does between them, so that calls may interleave.
pub mod Laws
mod Tests
use go_mamacord.Base.{
  ℕ, zero, suc, ◌+◌, ◌-◌, Bool, true, false, not, ◌&&◌, ◌||◌, Option, none, some, List, [], ◌∷◌,
  ◌==◌, if◌then◌else◌, any, GoString, str_eq,
}
use go_mamacord.Generation.{Channel, open_channel, closed_channel, close_channel}

pub record Handle : Type 0 where
  pub pointer : ℕ
  pub id : GoString

-- `draining` are the pointers of the generations on which `BeginDrain` was called; `replaced` are those
-- that a call has taken out of `current` and has not yet drained; `retiring` is the number of
-- goroutines that run `finishRetirement`.
pub record Manager : Type 0 where
  pub current : Option Handle
  pub pending : ℕ
  pub retired : Channel
  pub draining : List ℕ
  pub replaced : List ℕ
  pub retiring : ℕ

abbrev pub new_manager : Manager
new_manager = record {
  current = none;
  pending = 0;
  retired = closed_channel;
  draining = [];
  replaced = [];
  retiring = 0;
}

-- `beginRetirementLocked`
unfoldable pub begin_retirement : Manager → Manager
begin_retirement m = record m {
  retired = if m.pending == 0 then open_channel else m.retired;
  pending = m.pending + 1;
}

abbrev pub is_draining : Manager → Handle → Bool
is_draining m g = any (λ p. p == g.pointer) m.draining

-- What a call does with the generation that was current.
unfoldable pub replace : Option Handle → Manager → Manager
unfolding begin_retirement
replace none m = m
replace (some previous) m =
    let n = begin_retirement m in record n { replaced = previous.pointer ∷ m.replaced }

abbrev pub same_pointer : Option Handle → Handle → Bool
same_pointer none g = false
same_pointer (some h) g = h.pointer == g.pointer

abbrev pub same_id : Option Handle → Handle → Bool
same_id none g = false
same_id (some h) g = str_eq h.id g.id

-- `Activate` up to the end of its critical section; `ready` is what it read of `next` before. The
-- Boolean says whether it goes on without an error.
unfoldable pub activate_locked : Manager → Handle → Bool → Manager × Bool
unfolding replace
activate_locked m next ready =
    if not ready
    then (m, false)
    else if same_pointer m.current next
    then (m, true)
    else if same_id m.current next
    then (m, false)
    else (record (replace m.current m) { current = some next }, true)

-- `Close` up to the end of its critical section.
unfoldable pub close_locked : Manager → Manager
unfolding replace
close_locked m = record (replace m.current m) { current = none }

-- Of the generations p, ps, the one at the place k, or the last one, and the others.
unfoldable pub chosen : ℕ → ℕ → List ℕ → ℕ
chosen zero p ps = p
chosen (suc k) p [] = p
chosen (suc k) p (q ∷ ps) = chosen k q ps

unfoldable pub others : ℕ → ℕ → List ℕ → List ℕ
others zero p ps = ps
others (suc k) p [] = []
others (suc k) p (q ∷ ps) = p ∷ others k q ps

-- `previous.BeginDrain()` and `go manager.finishRetirement(previous)` of a call that has replaced one.
-- The number says which of the calls that have not come so far goes on.
unfoldable pub drain_replaced : ℕ → Manager → Manager
unfolding chosen others
drain_replaced k m = elim m.replaced [
  | [] ↦ m
  | p ∷ ps ↦ record m {
    draining = chosen k p ps ∷ m.draining;
    replaced = others k p ps;
    retiring = m.retiring + 1;
  }
]

-- The critical section of a goroutine that runs `finishRetirement`.
unfoldable pub finish_retirement : Manager → Manager
finish_retirement m = if m.retiring == 0 then m else record m {
  pending = m.pending - 1;
  retired = if m.pending - 1 == 0 then close_channel m.retired else m.retired;
  retiring = m.retiring - 1;
}

pub data Step : Type 0 where
  activates : Handle → Bool → Step
  closes : Step
  drains : ℕ → Step
  finishes : Step

unfoldable pub take_step : Manager → Step → Manager
unfolding activate_locked close_locked drain_replaced finish_retirement
take_step m (activates g ready) = (activate_locked m g ready).0
take_step m closes = close_locked m
take_step m (drains k) = drain_replaced k m
take_step m finishes = finish_retirement m

unfoldable pub take_steps : Manager → List Step → Manager
unfolding take_step
take_steps m [] = m
take_steps m (s ∷ ss) = take_steps (take_step m s) ss

-- A whole call of `Activate` that no other call interleaves with.
unfoldable pub activate : Manager → Handle → Manager
unfolding activate_locked drain_replaced
activate m next = drain_replaced 0 (activate_locked m next (not (is_draining m next))).0

-- A whole call of `Close` that no other call interleaves with.
unfoldable pub close : Manager → Manager
unfolding close_locked drain_replaced
close m = drain_replaced 0 (close_locked m)

-- Whole calls one after the other, with the goroutines they started ending between them.
pub data Call : Type 0 where
  activation : Handle → Call
  closing retirement_end : Call

unfoldable pub serve : Manager → List Call → Manager
unfolding activate close finish_retirement
serve m [] = m
serve m (activation g ∷ cs) = serve (activate m g) cs
serve m (closing ∷ cs) = serve (close m) cs
serve m (retirement_end ∷ cs) = serve (finish_retirement m) cs
