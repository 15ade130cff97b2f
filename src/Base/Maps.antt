-- ===== src/Base/Maps.antt =====
-- Go maps with string keys or numbers as keys, as association lists; the first entry of a key
-- counts.
use mathlib.Core.Path.{◌≡◌, refl}
use mathlib.Core.Option.{Option, none, some}
use mathlib.Core.List.{List, [], ◌∷◌}
use native.Mathlib.Omega.{arith}
use Prim.Native.Nat.{ℕ}
use go_mamacord.Base.Tests.{if◌then◌else◌, ◌==◌}
use go_mamacord.Base.Text.{GoString, str_eq, str_eq_iff}

abbrev pub Map {ℓ} : Type ℓ → Type ℓ
Map V = List (GoString × V)

module _ {ℓ} {V : Type ℓ} where
  -- A map that may be nil: a nil map reads as an empty one.
  abbrev pub entries : Option (List (GoString × V)) → List (GoString × V)
  entries none = []
  entries (some m) = m

  abbrev pub lookup : GoString → List (GoString × V) → Option V
  lookup k [] = none
  lookup k ((j, v) ∷ m) = if str_eq j k then some v else lookup k m

  unfoldable pub insert : GoString → V → List (GoString × V) → List (GoString × V)
  insert k v [] = (k, v) ∷ []
  insert k v ((j, w) ∷ m) = if str_eq j k then (k, v) ∷ m else (j, w) ∷ insert k v m

  pub lookup-insert :
      (k j : GoString) (v : V) (m : List (GoString × V))
      → lookup j (insert k v m) ≡ (if str_eq k j then some v else lookup j m)
  unfolding insert
  lookup-insert k j v [] = refl
  lookup-insert k j v ((i, w) ∷ m) =
      ground (arith, str_eq_iff k j, str_eq_iff i k, str_eq_iff i j, lookup-insert k j v m)

-- Maps whose keys are numbers: Discord ids.
module _ {ℓ} {V : Type ℓ} where
  abbrev pub lookup_id : ℕ → List (ℕ × V) → Option V
  lookup_id k [] = none
  lookup_id k ((j, v) ∷ m) = if j == k then some v else lookup_id k m

  unfoldable pub insert_id : ℕ → V → List (ℕ × V) → List (ℕ × V)
  insert_id k v [] = (k, v) ∷ []
  insert_id k v ((j, w) ∷ m) = if j == k then (k, v) ∷ m else (j, w) ∷ insert_id k v m

  pub lookup_id-insert_id :
      (k j : ℕ) (v : V) (m : List (ℕ × V))
      → lookup_id j (insert_id k v m) ≡ (if k == j then some v else lookup_id j m)
  unfolding insert_id
  lookup_id-insert_id k j v [] = refl
  lookup_id-insert_id k j v ((i, w) ∷ m) = ground (arith, lookup_id-insert_id k j v m)
