-- ===== src/Cooldown/Tracker/Spacing.antt =====
-- In any history of calls of `Take`, two allowed uses are at least the cooldown apart.
use go_mamacord.Base.{
  ℕ, ◌+◌, ◌≤◌, ◌<◌, ◌≡◌, ◌⊎◌, inl, inr, true, false, List, [], ◌∷◌, arith, is_nil, All, GoString,
  str_eq_iff, pos, Bool-cases, and-false,
}
use go_mamacord.Cooldown.Tracker.{Tracker, Use, last_use, take_use, is_of, allowed_times}
use go_mamacord.Cooldown.Tracker.Laws.{take_use_refines}

-- Each time is at least `d` after the one before it, the first after `last`, where 0 is no time.
abbrev pub Spaced : ℕ → ℕ → List ℕ → Type 0
Spaced d last [] = Unit
Spaced d last (t ∷ ts) = ((last ≡ 0) ⊎ (last + d ≤ t)) × Spaced d t ts

-- The user's uses of the key all have the cooldown `d`, and no use is at the zero Time.
abbrev pub IsRegular : ℕ → GoString → ℕ → Use → Type 0
IsRegular u k d e = (is_of u k e ≡ true → e.cooldown ≡ pos d) × (0 < e.now)

module _ (u : ℕ) (k : GoString) (d : ℕ) (user : 0 < u) (key : is_nil k ≡ false) (wait : 0 < d) where
  other_step :
      (c : Tracker) (e : Use)
      → is_of u k e ≡ false
      → last_use (take_use c e.user e.key e.cooldown e.now).0 u k ≡ last_use c u k
  other_step c e h =
      let (_, _, last) = take_use_refines c e.user e.key e.cooldown e.now in
      ground (arith, last u k)

  same_step :
      (c : Tracker) (e : Use)
      → is_of u k e ≡ true
      → IsRegular u k d e
      → let r = take_use c e.user e.key e.cooldown e.now in
        ((r.2 ≡ true)
          × ((last_use c u k ≡ 0) ⊎ (last_use c u k + d ≤ e.now))
          × (last_use r.0 u k ≡ e.now))
        ⊎ ((r.2 ≡ false) × (last_use r.0 u k ≡ last_use c u k))
  same_step c e h g =
      let (ok, _, last) = take_use_refines c e.user e.key e.cooldown e.now in
      ground (arith, last u k, ok, g.0 h, str_eq_iff e.key k)

  -- For a user and a key that the tracker watches and a positive `d`: over any history in which the
  -- user's uses of the key have the cooldown `d` and no use is at the zero time, the times of the
  -- allowed ones are spaced by `d`, from the last use that the tracker knows.
  pub allowed_times-Spaced :
      (c : Tracker) (es : List Use)
      → All (IsRegular u k d) es
      → Spaced d (last_use c u k) (allowed_times c u k es)
  unfolding allowed_times
  allowed_times-Spaced c [] h = tt
  allowed_times-Spaced c (e ∷ es) h =
      let ih = allowed_times-Spaced (take_use c e.user e.key e.cooldown e.now).0 es h.1 in
      elim (Bool-cases (is_of u k e)) [
        | inr off ↦ rw (off, and-false _) (rw (other_step c e off) at ih)
        | inl on ↦ elim (same_step c e on h.0) [
          | inl (ok, room, now) ↦ rw (ok, on) (room, rw now at ih)
          | inr (ok, kept) ↦ rw ok (rw kept at ih)
        ]
      ]
