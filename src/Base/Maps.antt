-- ===== src/Base/Maps.antt =====
-- `HashMap<String, V>` and `HashSet<String>` of the standard library, as association lists.
use Prim.Native.String.{String}
use mathlib.Core.Path.{◌≡◌, refl}
use mathlib.Core.Logic.{inl, inr}
use mathlib.Core.Bool.{Bool, false, ◌||◌}
use mathlib.Core.Option.{Option, none, some}
use mathlib.Core.List.{List, [], ◌∷◌}
use native.Mathlib.Omega.{arith}
use text.Mathlib.Text.{◌==◌}
use text.Mathlib.TextEquality.{eq_iff}
use quik.Base.Tests.{if◌then◌else◌, Bool-cases}

module _ {ℓ} {V : Type ℓ} where
  unfoldable pub lookup : String → List (String × V) → Option V
  lookup k [] = none
  lookup k ((j, v) ∷ m) = if j == k then some v else lookup k m

  unfoldable pub insert : String → V → List (String × V) → List (String × V)
  insert k v [] = (k, v) ∷ []
  insert k v ((j, w) ∷ m) = if j == k then (k, v) ∷ m else (j, w) ∷ insert k v m

  -- Every pair with the key goes.
  unfoldable pub remove : String → List (String × V) → List (String × V)
  remove k [] = []
  remove k ((j, w) ∷ m) = if j == k then remove k m else (j, w) ∷ remove k m

  pub lookup-insert :
      (key asked : String) (value : V) (table : List (String × V))
      → lookup asked (insert key value table)
        ≡ (if key == asked then some value else lookup asked table)
  unfolding lookup insert
  lookup-insert key asked value [] = refl
  lookup-insert key asked value ((first, old) ∷ table) = ground (
    arith,
    lookup-insert key asked value table,
    eq_iff first key,
    eq_iff first asked,
    eq_iff key asked,
  )

  pub lookup-remove :
      (key asked : String) (table : List (String × V))
      → lookup asked (remove key table) ≡ (if key == asked then none else lookup asked table)
  unfolding lookup remove
  lookup-remove key asked [] = ground arith
  lookup-remove key asked ((first, old) ∷ table) =
      ground (
        arith,
        lookup-remove key asked table,
        eq_iff first key,
        eq_iff first asked,
        eq_iff key asked,
      )

unfoldable pub member : String → List String → Bool
member k [] = false
member k (j ∷ s) = j == k || member k s

-- `HashSet::insert`.
unfoldable pub add : String → List String → List String
unfolding member
add k s = if member k s then s else k ∷ s

pub member-add : (k j : String) (s : List String) → member j (add k s) ≡ (k == j || member j s)
unfolding add
member-add k j s = elim (Bool-cases (member k s)) [
  | inl held ↦ rw held (ground (arith, eq_iff k j))
  | inr new ↦ rw new (unfold member in refl)
]
