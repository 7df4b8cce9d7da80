-- ===== src/Driver/Settling.antt =====
-- What the events of src/client/quic.rs do to the requests of the driver: they open no stream and
-- keep the count of what is owed and delivered.

use quik.Base.{ℕ, List, none, Option-cases, arith, ◌≡◌, inl, inr}
use quik.Externals.{Externals}
use quik.Streams.{lookup, IsMap, remove-IsMap, update-IsMap, lookup-remove, lookup-update}
use quik.Driver.{PendingRequest, Requests, answer, take_bytes, finish, reset, advance}
use quik.Driver.Tally.{owed, owed-take_bytes, owed-finish, owed-reset}

module _ (x : Externals) where
  -- A change of what is owed and delivered that opens no stream and keeps the books.
  pub record Settles (g : Requests x → Requests x) : Type 0 where
    pub maps : (r : Requests x) → IsMap r.pending → IsMap (g r).pending
    pub keys :
        (r : Requests x) (id : ℕ) → lookup id r.pending ≡ none → lookup id (g r).pending ≡ none
    pub owes : (t : ℕ) (r : Requests x) → IsMap r.pending → owed x t (g r) ≡ owed x t r

  pub advance-Settles :
      (id : ℕ) (f : PendingRequest x → PendingRequest x)
      → ((t : ℕ) (r : Requests x) → owed x t (advance x id f r) ≡ owed x t r)
      → Settles (advance x id f)
  advance-Settles id f h = record {
    maps = λ r i. update-IsMap id f r.pending i;
    keys = λ r j e. rw (lookup-update id j f r.pending, e) (ground arith);
    owes = λ t r i. h t r;
  }

  pub finish-Settles : (id : ℕ) → Settles (finish x id)
  unfolding finish answer
  finish-Settles id = record {
    maps = λ r i. elim (Option-cases (lookup id r.pending)) [
      | inl e ↦ rw (finish, e) i
      | inr (req, e) ↦ rw (finish, e) (remove-IsMap id r.pending i)
    ];
    keys = λ r j n. elim (Option-cases (lookup id r.pending)) [
      | inl e ↦ rw (finish, e) n
      | inr (req, e) ↦ rw (finish, e, lookup-remove id j r.pending, n) (ground arith)
    ];
    owes = λ t r i. owed-finish x t id r i;
  }

  pub reset-Settles : (id code : ℕ) → Settles (reset x id code)
  unfolding reset answer
  reset-Settles id code = record {
    maps = λ r i. elim (Option-cases (lookup id r.pending)) [
      | inl e ↦ rw (reset, e) i
      | inr (req, e) ↦ rw (reset, e) (remove-IsMap id r.pending i)
    ];
    keys = λ r j n. elim (Option-cases (lookup id r.pending)) [
      | inl e ↦ rw (reset, e) n
      | inr (req, e) ↦ rw (reset, e, lookup-remove id j r.pending, n) (ground arith)
    ];
    owes = λ t r i. owed-reset x t id code r i;
  }

  pub bytes-Settles : (id : ℕ) (bytes : List ℕ) → Settles (advance x id (take_bytes x bytes))
  bytes-Settles id bytes = advance-Settles id _ (λ t r. owed-take_bytes x t id bytes r)
