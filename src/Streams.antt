-- ===== src/Streams.antt =====
-- `HashMap<u64, V>` of the standard library, as an association list: what the driver of
-- src/client/quic.rs keeps by stream.
use quik.Base.{ℕ, ◌==◌, Option, none, some, List, [], ◌∷◌, if◌then◌else◌, arith, ◌≡◌, refl}
use mathlib.Core.Option

module _ {ℓ} {V : Type ℓ} where
  unfoldable pub lookup : ℕ → List (ℕ × V) → Option V
  lookup id [] = none
  lookup id ((at, value) ∷ streams) = if at == id then some value else lookup id streams

  -- `if let Some(value) = map.get_mut(&key) { … }`.
  unfoldable pub update : ℕ → (V → V) → List (ℕ × V) → List (ℕ × V)
  update id f [] = []
  update id f ((at, held) ∷ streams) =
      (at, (if at == id then f held else held)) ∷ update id f streams

  unfoldable pub remove : ℕ → List (ℕ × V) → List (ℕ × V)
  remove id [] = []
  remove id ((at, held) ∷ streams) =
      if at == id then remove id streams else (at, held) ∷ remove id streams

  unfoldable pub insert : ℕ → V → List (ℕ × V) → List (ℕ × V)
  insert id value [] = (id, value) ∷ []
  insert id value ((at, held) ∷ streams) =
      if at == id then (id, value) ∷ streams else (at, held) ∷ insert id value streams

  pub lookup-insert :
      (id at : ℕ) (value : V) (streams : List (ℕ × V))
      → lookup at (insert id value streams) ≡ (if id == at then some value else lookup at streams)
  unfolding lookup insert
  lookup-insert id at value [] = refl
  lookup-insert id at value ((there, held) ∷ streams) =
      ground (arith, lookup-insert id at value streams)

  pub lookup-remove :
      (id at : ℕ) (streams : List (ℕ × V))
      → lookup at (remove id streams) ≡ (if id == at then none else lookup at streams)
  unfolding lookup remove
  lookup-remove id at [] = ground arith
  lookup-remove id at ((there, held) ∷ streams) = ground (arith, lookup-remove id at streams)

  pub lookup-update :
      (id at : ℕ) (f : V → V) (streams : List (ℕ × V))
      → lookup at (update id f streams)
        ≡ (if id == at then Option.map f (lookup at streams) else lookup at streams)
  unfolding lookup update
  lookup-update id at f [] = ground arith
  lookup-update id at f ((there, held) ∷ streams) = ground (arith, lookup-update id at f streams)

  -- No key twice.
  abbrev pub IsMap : List (ℕ × V) → Type ℓ
  IsMap [] = Unit
  IsMap ((id, value) ∷ streams) = (lookup id streams ≡ none) × IsMap streams

  pub insert-IsMap :
      (id : ℕ) (value : V) (streams : List (ℕ × V))
      → IsMap streams
      → IsMap (insert id value streams)
  unfolding insert lookup
  insert-IsMap id value [] h = (refl, tt)
  insert-IsMap id value ((at, held) ∷ streams) (n, h) =
      ground (arith, insert-IsMap id value streams h, lookup-insert id at value streams)

  pub remove-IsMap : (id : ℕ) (streams : List (ℕ × V)) → IsMap streams → IsMap (remove id streams)
  unfolding remove
  remove-IsMap id [] h = tt
  remove-IsMap id ((at, held) ∷ streams) (n, h) =
      ground (arith, remove-IsMap id streams h, lookup-remove id at streams)

  pub update-IsMap :
      (id : ℕ) (f : V → V) (streams : List (ℕ × V)) → IsMap streams → IsMap (update id f streams)
  unfolding update
  update-IsMap id f [] h = tt
  update-IsMap id f ((at, held) ∷ streams) (n, h) =
      (rw (lookup-update id at f streams, n) (ground arith), update-IsMap id f streams h)
