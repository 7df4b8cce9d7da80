-- ===== src/Driver/Tally.antt =====
-- The commands that the driver of src/client/quic.rs has taken: each is pending or was answered.
use quik.Base.{
  ℕ, ◌+◌, ◌==◌, List, [], ◌∷◌, none, some, Option-cases, if◌then◌else◌, arith, ◌≡◌, refl, ◌∙◌, ap,
  subst, Bool-cases, inl, inr,
}
use mathlib.Core.Option.{some-injective}
use quik.Externals.{Externals}
use quik.Streams.{lookup, insert, remove, update, IsMap}
use quik.Driver.Loop.{admit}
use quik.Driver.{
  PendingRequest, Requests, Answer, answer, take_header, take_headers, take_bytes, finish, reset,
  advance,
}

abbrev pub tick : ℕ → ℕ → ℕ
tick tx t = if tx == t then 1 else 0

module _ (x : Externals) where
  open x use {Foreign, http}

  pub waiting : ℕ → List (ℕ × PendingRequest x) → ℕ
  waiting t [] = 0
  waiting t ((id, req) ∷ m) = tick req.response_tx t + waiting t m

  pub delivered : ℕ → List (ℕ × Answer x) → ℕ
  delivered t [] = 0
  delivered t ((tx, a) ∷ l) = tick tx t + delivered t l

  -- How often a channel is owed an answer or got one.
  pub owed : ℕ → Requests x → ℕ
  unfolding waiting delivered
  owed t r = waiting t r.pending + delivered t r.answered

  waiting-insert :
      (t k : ℕ) (v : PendingRequest x) (m : List (ℕ × PendingRequest x))
      → lookup k m ≡ none
      → waiting t (insert k v m) ≡ waiting t m + tick v.response_tx t
  unfolding waiting insert lookup
  waiting-insert t k v [] h = omega arith
  waiting-insert t k v ((j, w) ∷ m) h = ground (arith, waiting-insert t k v m)

  waiting-remove_absent :
      (t k : ℕ) (m : List (ℕ × PendingRequest x))
      → lookup k m ≡ none
      → waiting t (remove k m) ≡ waiting t m
  unfolding waiting remove lookup
  waiting-remove_absent t k [] h = refl
  waiting-remove_absent t k ((j, w) ∷ m) h = ground (arith, waiting-remove_absent t k m)

  waiting-remove :
      (t k : ℕ) (v : PendingRequest x) (m : List (ℕ × PendingRequest x))
      → IsMap m
      → lookup k m ≡ some v
      → waiting t (remove k m) + tick v.response_tx t ≡ waiting t m
  unfolding waiting remove lookup
  waiting-remove t k v [] i h = absurd (cc)
  waiting-remove t k v ((j, w) ∷ m) (n, i) h = elim (Bool-cases (j == k)) [
    | inl same ↦
        let here : j ≡ k = ground arith in
        let absent = subst (λ i. lookup i m ≡ none) here n in
        let found : some w ≡ some v = rw same at h in
        let tx : tick w.response_tx t ≡ tick v.response_tx t =
          ap (λ (r : PendingRequest x). tick r.response_tx t) (some-injective w v found) in
        rw same (omega (arith, waiting-remove_absent t k m absent, tx))
    | inr other ↦ ground (arith, waiting-remove t k v m i)
  ]

  waiting-update :
      (t k : ℕ) (f : PendingRequest x → PendingRequest x) (m : List (ℕ × PendingRequest x))
      → ((r : PendingRequest x) → (f r).response_tx ≡ r.response_tx)
      → waiting t (update k f m) ≡ waiting t m
  unfolding waiting update
  waiting-update t k f [] h = refl
  waiting-update t k f ((j, w) ∷ m) h = ground (arith, waiting-update t k f m h, h w)

  take_header_tx :
      (header : List ℕ × List ℕ) (r : PendingRequest x)
      → (take_header x header r).response_tx ≡ r.response_tx
  unfolding take_header
  take_header_tx (name, value) r = ground arith

  pub take_headers_tx :
      (list : List (List ℕ × List ℕ)) (r : PendingRequest x)
      → (take_headers x list r).response_tx ≡ r.response_tx
  unfolding take_headers
  take_headers_tx [] r = refl
  take_headers_tx (header ∷ list) r =
      take_headers_tx list (take_header x header r) ∙ take_header_tx header r

  pub owed-take_headers :
      (t id : ℕ) (list : List (List ℕ × List ℕ)) (r : Requests x)
      → owed t (advance x id (take_headers x list) r) ≡ owed t r
  unfolding owed
  owed-take_headers t id list r =
      omega (arith, waiting-update t id (take_headers x list) r.pending (take_headers_tx list))

  pub owed-take_bytes :
      (t id : ℕ) (bytes : List ℕ) (r : Requests x)
      → owed t (advance x id (take_bytes x bytes) r) ≡ owed t r
  unfolding owed
  owed-take_bytes t id bytes r =
      omega (arith, waiting-update t id (take_bytes x bytes) r.pending (λ r. refl))

  owed-answer_removed :
      (t id : ℕ) (req : PendingRequest x) (a : Answer x) (r : Requests x)
      → IsMap r.pending
      → lookup id r.pending ≡ some req
      → owed t (answer x req.response_tx a (record r { pending = remove id r.pending })) ≡ owed t r
  unfolding owed answer delivered
  owed-answer_removed t id req a r i h = omega (arith, waiting-remove t id req r.pending i h)

  pub owed-finish :
      (t id : ℕ) (r : Requests x) → IsMap r.pending → owed t (finish x id r) ≡ owed t r
  unfolding finish
  owed-finish t id r i = elim (Option-cases (lookup id r.pending)) [
    | inl e ↦ rw (finish, e) refl
    | inr (req, e) ↦ rw (finish, e) (owed-answer_removed t id req _ r i e)
  ]

  pub owed-reset :
      (t id code : ℕ) (r : Requests x) → IsMap r.pending → owed t (reset x id code r) ≡ owed t r
  unfolding reset
  owed-reset t id code r i = elim (Option-cases (lookup id r.pending)) [
    | inl e ↦ rw (reset, e) refl
    | inr (req, e) ↦ rw (reset, e) (owed-answer_removed t id req _ r i e)
  ]

  pub owed-answer :
      (t tx : ℕ) (a : Answer x) (r : Requests x) → owed t (answer x tx a r) ≡ owed t r + tick tx t
  unfolding owed answer delivered
  owed-answer t tx a r = omega arith

  pub owed-admit :
      (t id : ℕ) (req : PendingRequest x) (r : Requests x)
      → lookup id r.pending ≡ none
      → owed t (admit x id req r) ≡ owed t r + tick req.response_tx t
  unfolding owed
  owed-admit t id req r e = omega (arith, waiting-insert t id req r.pending e)

  pub owed-nothing : (t : ℕ) → owed t (record { pending = []; answered = [] }) ≡ 0
  unfolding owed waiting delivered
  owed-nothing t = refl
