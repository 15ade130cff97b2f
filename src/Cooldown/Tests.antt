-- ===== src/Cooldown/Tests.antt =====
-- Tests of the cooldown modules, and the theorems at concrete inputs.
use go_mamacord.Base.{
  ℕ, ◌+◌, ◌-◌, ◌*◌, ◌≤◌, ◌<◌, min, ◌≡◌, refl, ◌↔◌, ◌⊎◌, not, ◌||◌, ◌&&◌, ◌==◌, none, some, List, [],
  ◌∷◌, here, arith, if◌then◌else◌, GoString, codes, str_eq, to_lower, trim_space, insert, insert_id,
  pos,
}
use go_mamacord.CustomId.{built, build}
use go_mamacord.Manifest.Ids.{valid_id, valid_local_id}
use go_mamacord.Base.{has_rune, byte_len}
use go_mamacord.Cooldown.Policy.{
  Policy, new_policy, root_of, command_cooldown, cooldown_seconds, second,
}
use go_mamacord.Cooldown.Policy.Laws.{command_cooldown_bypassed, cooldown_seconds_bounds}
use go_mamacord.Cooldown.Policy.Refinement.{listed_cooldown, last_for}
use go_mamacord.Cooldown.Key.{
  CommandEvent, slash, slash_cooldown_key, component_cooldown_key, component_cooldown_key-build,
}
use go_mamacord.Cooldown.Tracker.{Use, new_tracker, last_use, take_use, max_duration, allowed_times}
use go_mamacord.Cooldown.Tracker.Laws.{watched, is_open, take_use_refines}
use go_mamacord.Cooldown.Tracker.Spacing.{Spaced, allowed_times-Spaced}

abbrev fold : ℕ → ℕ
fold c = c

abbrev roll_at : ℕ → Use
roll_at t = record { user = 7; key = codes "roll"; cooldown = pos 10; now = t }

abbrev flip_at : ℕ → Use
flip_at t = record { user = 7; key = codes "flip"; cooldown = pos 10; now = t }

abbrev rolls : List Use
rolls = roll_at 5 ∷ roll_at 9 ∷ flip_at 10 ∷ roll_at 15 ∷ roll_at 24 ∷ roll_at 26 ∷ []

rolls_allowed : allowed_times new_tracker 7 (codes "roll") rolls ≡ 5 ∷ 15 ∷ 26 ∷ []
unfolding allowed_times new_tracker take_use insert insert_id
rolls_allowed = refl

take_use_refines_example :
    let r = take_use new_tracker 7 (codes "roll") (pos 10) 5 in
    let last = last_use new_tracker 7 (codes "roll") in
    let ok = not (watched 7 (codes "roll") (pos 10)) || is_open last (pos 10) 5 in
    (r.2 ≡ ok)
    × (r.1 ≡ (if ok then 0 else min (last + 10 - 5) max_duration))
    × ((v : ℕ) (j : GoString)
        → last_use r.0 v j ≡ (
            if watched 7 (codes "roll") (pos 10)
              && is_open last (pos 10) 5
              && ((7 == v) && str_eq (codes "roll") j)
            then 5
            else last_use new_tracker v j))
take_use_refines_example = take_use_refines new_tracker 7 (codes "roll") (pos 10) 5

allowed_times-Spaced_example :
    Spaced 10
      (last_use new_tracker 7 (codes "roll"))
      (allowed_times new_tracker 7 (codes "roll") (roll_at 5 ∷ roll_at 9 ∷ []))
allowed_times-Spaced_example =
    allowed_times-Spaced 7 (codes "roll") 10 (omega arith) refl (omega arith) new_tracker
      (roll_at 5 ∷ roll_at 9 ∷ []) ((λ h. refl, omega arith), ((λ h. refl, omega arith), tt))

abbrev sample : Policy
unfolding new_policy
sample =
    new_policy fold (pos 3) (pos 1) (pos 0) (codes " Info" ∷ [])
      ((codes "fun:roll", pos 9) ∷ (codes "fun", pos 5) ∷ [])

sample_cooldowns :
    (command_cooldown fold sample (codes "info:about") ≡ pos 0)
    × (command_cooldown fold sample (codes "FUN:roll") ≡ pos 9)
    × (command_cooldown fold sample (codes "fun:flip") ≡ pos 5)
    × (command_cooldown fold sample (codes "ping") ≡ pos 3)
unfolding command_cooldown new_policy to_lower trim_space insert
sample_cooldowns = (refl, refl, refl, refl)

command_cooldown_bypassed_example :
    command_cooldown fold
      (new_policy fold (pos 3) (pos 1) (pos 0) (codes " Info" ∷ []) [])
      (codes "info:about")
    ≡ pos 0
unfolding root_of to_lower trim_space
command_cooldown_bypassed_example =
    command_cooldown_bypassed fold (pos 3) (pos 1) (pos 0) (codes " Info" ∷ []) []
      (codes "info:about") (codes " Info") (here refl) refl refl

listed_five :
    listed_cooldown fold
      (pos 3)
      (codes " Info" ∷ [])
      ((codes "fun:roll", pos 9) ∷ (codes "Fun", pos 5) ∷ [])
      (codes "fun:flip")
      (codes "fun")
    ≡ pos 5
unfolding last_for to_lower trim_space
listed_five = refl

cooldown_seconds_bounds_example :
    let s = cooldown_seconds (pos 1600000000) in
    (1 ≤ s)
    × (((1600000000 < 500000000) × (s ≡ 1))
        ⊎ ((500000000 ≤ 1600000000)
            × (s * second ≤ 1600000000 + 500000000)
            × (1600000000 < s * second + 500000000)))
cooldown_seconds_bounds_example = cooldown_seconds_bounds 1600000000 (omega arith)

build_a : build (codes "fun") (codes "a") ≡ built (codes "mamacord:pl:fun:a")
unfolding build valid_id valid_local_id trim_space has_rune byte_len
build_a = refl

build_b : build (codes "fun") (codes "b") ≡ built (codes "mamacord:pl:fun:b")
unfolding build valid_id valid_local_id trim_space has_rune byte_len
build_b = refl

component_cooldown_key-build_example :
    (component_cooldown_key (codes "mamacord:pl:fun:a")
      ≡ component_cooldown_key (codes "mamacord:pl:fun:b"))
    ↔ (codes "fun" ≡ codes "fun")
component_cooldown_key-build_example =
    component_cooldown_key-build (codes "fun") (codes "a") (codes "mamacord:pl:fun:a") (codes "fun")
      (codes "b") (codes "mamacord:pl:fun:b") build_a build_b

abbrev flip_event : CommandEvent
flip_event = record {
  data_type = slash;
  sub_command_group_name = none;
  sub_command_name = some (codes "Flip ");
}

slash_key_flip : slash_cooldown_key fold (some flip_event) (codes " Fun") ≡ codes "fun:flip"
unfolding slash_cooldown_key to_lower trim_space
slash_key_flip = refl
