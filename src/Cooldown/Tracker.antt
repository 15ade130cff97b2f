-- ===== src/Cooldown/Tracker.antt =====
-- tracker.go: the last use of each key by each user. An instant is its nanoseconds since Go's zero
-- time, so that 0 is the zero Time, and a duration is in nanoseconds. `Take` holds the mutex
-- throughout, so a history is a list of calls.
pub mod Laws
pub mod Spacing
use go_mamacord.Base.{
  ℕ, ◌+◌, ◌-◌, ◌*◌, ◌^◌, ◌/◌, ◌%◌, min, Bool, true, false, not, ◌&&◌, ◌||◌, Option, none, some,
  List, [], ◌∷◌, ltb, leb, ◌==◌, if◌then◌else◌, is_nil, GoString, str_eq, Map, lookup, insert,
  lookup_id, insert_id, ℤ, pos, negsuc, is_positive, magnitude,
}

abbrev pub Users : Type 0
Users = List (ℕ × Map ℕ)

pub record Tracker : Type 0 where
  pub last : Users

unfoldable pub new_tracker : Tracker
new_tracker = record { last = [] }

abbrev pub max_duration : ℕ
max_duration = 2 ^ 63 - 1

-- A missing entry reads as the nil map, and a missing time as the zero Time.
abbrev pub user_times : Option (Map ℕ) → Map ℕ
user_times none = []
user_times (some m) = m

abbrev pub time_or_zero : Option ℕ → ℕ
time_or_zero none = 0
time_or_zero (some t) = t

-- `c.last[userID] = m` for a user that has no map yet.
unfoldable pub ensure_user : Users → ℕ → Option (Map ℕ) → Users
ensure_user users user_id none = insert_id user_id [] users
ensure_user users user_id (some m) = users

abbrev pub last_use : Tracker → ℕ → GoString → ℕ
last_use c user_id key = time_or_zero (lookup key (user_times (lookup_id user_id c.last)))

-- The new tracker, what is left to wait, and whether the use is allowed. `next.Sub(now)` is cut at
-- the longest duration.
unfoldable pub take_use : Tracker → ℕ → GoString → ℤ → ℕ → Tracker × ℕ × Bool
unfolding ensure_user
take_use c user_id key d now =
    let m = user_times (lookup_id user_id c.last) in
    let users = ensure_user c.last user_id (lookup_id user_id c.last) in
    let prev = time_or_zero (lookup key m) in
    let next = prev + magnitude d in
    if not (is_positive d) || user_id == 0 || is_nil key
    then (c, 0, true)
    else if not (prev == 0) && ltb now next
    then (record c { last = users }, min (next - now) max_duration, false)
    else (record c { last = insert_id user_id (insert key now m) users }, 0, true)

-- A nil tracker allows everything.
unfoldable pub take_use_nil : Option Tracker → ℕ → GoString → ℤ → ℕ → Option Tracker × ℕ × Bool
unfolding take_use
take_use_nil none user_id key d now = (none, 0, true)
take_use_nil (some c) user_id key d now =
    let (c', left, ok) = take_use c user_id key d now in (some c', left, ok)

-- One call of `Take`, and a history of calls.
pub record Use : Type 0 where
  pub user : ℕ
  pub key : GoString
  pub cooldown : ℤ
  pub now : ℕ

abbrev pub is_of : ℕ → GoString → Use → Bool
is_of user_id key e = (e.user == user_id) && str_eq e.key key

-- The times at which the user's uses of the key were allowed, oldest first.
unfoldable pub allowed_times : Tracker → ℕ → GoString → List Use → List ℕ
allowed_times c user_id key [] = []
allowed_times c user_id key (e ∷ es) =
    let (c', left, ok) = take_use c e.user e.key e.cooldown e.now in
    let rest = allowed_times c' user_id key es in
    if ok && is_of user_id key e then e.now ∷ rest else rest
