-- ===== src/Cooldown/Tracker/Laws.antt =====
-- Two uses of a key by a user are at least the cooldown apart (tracker.go).
use go_mamacord.Base.{
  ℕ, ◌+◌, ◌-◌, min, ◌≡◌, refl, Bool, not, ◌||◌, ◌&&◌, [], arith, leb, ◌==◌, if◌then◌else◌, is_nil,
  GoString, str_eq, insert, lookup-insert, lookup_id, insert_id, lookup_id-insert_id, ℤ,
  is_positive, magnitude, Option-cases, inl, inr,
}
use go_mamacord.Cooldown.Tracker.{
  Tracker, Users, user_times, last_use, take_use, max_duration, ensure_user,
}

-- The call is one that the tracker watches.
abbrev pub watched : ℕ → GoString → ℤ → Bool
watched user_id key d = is_positive d && (not (user_id == 0) && not (is_nil key))

ensure_user-lookup :
    (users : Users) (u v : ℕ)
    → user_times (lookup_id v (ensure_user users u (lookup_id u users)))
      ≡ user_times (lookup_id v users)
unfolding ensure_user
ensure_user-lookup users u v = elim (Option-cases (lookup_id u users)) [
  | inl e ↦ rw (e, ensure_user) (ground (arith, lookup_id-insert_id u v [] users))
  | inr (m, e) ↦ rw (e, ensure_user) refl
]

-- What the last uses are after a use at `now` has been recorded.
recorded-last :
    (users : Users) (u : ℕ) (k : GoString) (now v : ℕ) (j : GoString)
    → last_use
        (record {
          last =
              insert_id u
                (insert k now (user_times (lookup_id u users)))
                (ensure_user users u (lookup_id u users));
        })
        v
        j
      ≡ (if (u == v) && str_eq k j then now else last_use (record { last = users }) v j)
recorded-last users u k now v j = ground (
  arith,
  lookup_id-insert_id u v (insert k now (user_times (lookup_id u users)))
      (ensure_user users u (lookup_id u users)),
  lookup-insert k j now (user_times (lookup_id u users)),
  ensure_user-lookup users u v,
)

-- The last use leaves room for a use at `now`.
abbrev pub is_open : ℕ → ℤ → ℕ → Bool
is_open last d now = last == 0 || leb (last + magnitude d) now

-- A call that the tracker does not watch is allowed and changes nothing. A watched call is allowed
-- exactly when there is no last use, or the cooldown has passed since; else what is left of the
-- cooldown is returned. The last uses change only for an allowed call, and only at its user and key.
pub take_use_refines :
    (c : Tracker) (u : ℕ) (k : GoString) (d : ℤ) (now : ℕ)
    → let r = take_use c u k d now in
      let last = last_use c u k in
      let ok = not (watched u k d) || is_open last d now in
      (r.2 ≡ ok)
      × (r.1 ≡ (if ok then 0 else min (last + magnitude d - now) max_duration))
      × ((v : ℕ) (j : GoString)
          → last_use r.0 v j ≡ (
              if watched u k d && is_open last d now && ((u == v) && str_eq k j)
              then now
              else last_use c v j))
unfolding take_use
take_use_refines c u k d now = (
  ground arith,
  ground arith,
  λ v j. ground (arith, recorded-last c.last u k now v j, ensure_user-lookup c.last u v),
)
