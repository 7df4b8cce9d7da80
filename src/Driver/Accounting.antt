-- ===== src/Driver/Accounting.antt =====
-- src/client/quic.rs: what a driver owes and has delivered, through what the socket brings.

use quik.Base.{
  ℕ, zero, suc, ◌≤◌, false, List, Option, none, some, Option-cases, is_some, not, ◌&&◌, arith, ◌≡◌,
  ◌∙◌, Bool-cases, inl, inr,
}
use quik.Effect.{Result, ok, err}
use quik.Effect.Kept.{Kept, Kept-state, Kept-if, Kept-continue, Kept-case_option}
use quik.Externals.{Externals}
use quik.Quiche.{
  QuicheLib, QuicheLaws, Event, headers_event, data_event, finished_event, other_event, reset_event,
}
use quik.Streams.{lookup, IsMap}
use quik.Driver.{Requests, Driver, on_requests}
use quik.Driver.Tally.{owed, owed-take_headers}
use quik.Driver.Settling.{Settles, advance-Settles, finish-Settles, reset-Settles, bytes-Settles}
use quik.Driver.Loop.{flush, read_body, on_event, poll_loop, on_h3, begin_h3, begun, on_received}

module _ (x : Externals) where
  module _ (q : QuicheLib x) (l : QuicheLaws x q) where
    open x use {World, Foreign, Quic, Udp, Address}
    open q use {H3, H3Config}

    abbrev pub bound : Option H3 → ℕ
    bound none = 0
    bound (some h) = l.opened h

    -- Every pending stream has an id that the connection gave out.
    pub record Tracked (d : Driver x q) : Type 0 where
      pub is_map : IsMap d.requests.pending
      pub fresh : (id : ℕ) → bound d.h3_conn ≤ id → lookup id d.requests.pending ≡ none

    pub record Accounted (n : ℕ → ℕ) (d : Driver x q) : Type 0 where
      pub tracked : Tracked d
      pub books : (t : ℕ) → owed x t d.requests ≡ n t

    module _ (n : ℕ → ℕ) where
      settled :
          (g : Requests x → Requests x) (d : Driver x q)
          → Settles x g
          → Accounted n d
          → Accounted n (record d { requests = g d.requests })
      settled g d s a = record {
        tracked = record {
          is_map = s.maps d.requests a.tracked.is_map;
          fresh = λ id b. s.keys d.requests id (a.tracked.fresh id b);
        };
        books = λ t. s.owes t d.requests a.tracked.is_map ∙ a.books t;
      }

      -- The connections change, and no stream id becomes free again.
      pub moved :
          (d : Driver x q) (h : Option H3) (c : Quic) (w : World)
          → bound d.h3_conn ≤ bound h
          → Accounted n d
          → Accounted n (record d { h3_conn = h; conn = c; world = w })
      moved d h c w b a = record {
        tracked = record {
          is_map = a.tracked.is_map;
          fresh = λ id b'. a.tracked.fresh id (omega (arith, b, b'));
        };
        books = a.books;
      }

      pub carried :
          (d : Driver x q) (c : Quic) (w : World)
          → Accounted n d
          → Accounted n (record d { conn = c; world = w })
      carried d c w a = moved d d.h3_conn c w (omega arith) a

      on_h3-Kept :
          {A : Type 0} (absent : A) (f : H3 → Quic → A × (H3 × Quic)) (d : Driver x q)
          → ((h : H3) (c : Quic) → l.opened h ≤ l.opened (f h c).1.0)
          → Accounted n d
          → Kept (Accounted n) (on_h3 x q absent f d)
      on_h3-Kept absent f d up a = elim (Option-cases d.h3_conn) [
        | inl e ↦ rw (on_h3, e) (record { kept = a })
        | inr (h, e) ↦ rw (on_h3, e) (record { kept = moved d _ _ d.world (rw e (up h d.conn)) a })
      ]

      on_requests-Kept :
          (g : Requests x → Requests x) (d : Driver x q)
          → Settles x g
          → Accounted n d
          → Kept (Accounted n) (on_requests x q g d)
      on_requests-Kept g d s a = record { kept = settled g d s a }

      read_body-Kept :
          (fuel id : ℕ) (d : Driver x q)
          → Accounted n d
          → Kept (Accounted n) (read_body x q fuel id d)
      unfolding read_body
      read_body-Kept zero id d a = record { kept = a }
      read_body-Kept (suc fuel) id d a =
          search
            (
              Kept-continue,
              Kept-case_option,
              Kept-if,
              Kept-state,
              on_h3-Kept,
              on_requests-Kept,
              bytes-Settles x,
              l.recv_body-opened,
              read_body-Kept fuel id,
            )
            depth 40

      on_event-Kept :
          (fuel id : ℕ) (e : Event) (d : Driver x q)
          → Accounted n d
          → Kept (Accounted n) (on_event x q fuel id e d)
      unfolding on_event
      on_event-Kept fuel id (headers_event list) d a =
          on_requests-Kept _ d (advance-Settles x id _ (λ t r. owed-take_headers x t id list r)) a
      on_event-Kept fuel id data_event d a =
          search (Kept-continue, Kept-if, Kept-state, read_body-Kept) depth 40
      on_event-Kept fuel id finished_event d a = on_requests-Kept _ d (finish-Settles x id) a
      on_event-Kept fuel id (reset_event code) d a =
          on_requests-Kept _ d (reset-Settles x id code) a
      on_event-Kept fuel id other_event d a = record { kept = a }

      poll_loop-Kept :
          (fuel body_fuel : ℕ) (d : Driver x q)
          → Accounted n d
          → Kept (Accounted n) (poll_loop x q fuel body_fuel d)
      unfolding poll_loop
      poll_loop-Kept zero body_fuel d a = record { kept = a }
      poll_loop-Kept (suc fuel) body_fuel d a =
          search
            (
              Kept-continue,
              Kept-case_option,
              Kept-state,
              on_h3-Kept,
              l.poll-opened,
              on_event-Kept,
              poll_loop-Kept fuel body_fuel,
            )
            depth 40

      pub flush-Kept :
          (fuel : ℕ) (socket : Udp) (d : Driver x q)
          → Accounted n d
          → Kept (Accounted n) (flush x q fuel socket d)
      unfolding flush
      flush-Kept zero socket d a = record { kept = a }
      flush-Kept (suc fuel) socket d a =
          search
            (Kept-continue, Kept-case_option, Kept-if, Kept-state, carried, flush-Kept fuel socket)
            depth 40

      bound_absent : (o : Option H3) (k : ℕ) → is_some o ≡ false → bound o ≤ k
      bound_absent none k e = omega arith
      bound_absent (some h) k e = absurd (cc)

      begun-Kept :
          (r : Result Foreign H3 × Quic) (d : Driver x q)
          → is_some d.h3_conn ≡ false
          → Accounted n d
          → Kept (Accounted n) (begun x q r d)
      begun-Kept (err e, c) d f a = record { kept = carried d c d.world a }
      begun-Kept (ok h, c) d f a = record {
        kept = moved d (some h) c d.world (bound_absent d.h3_conn _ f) a;
      }

      begin_h3-Kept :
          (config : H3Config) (d : Driver x q)
          → Accounted n d
          → Kept (Accounted n) (begin_h3 x q config d)
      unfolding begin_h3
      begin_h3-Kept config d a =
          elim (Bool-cases (q.is_established d.conn && not (is_some d.h3_conn))) [
            | inl up ↦ rw (begin_h3, up) (begun-Kept _ d (ground (arith, up)) a)
            | inr down ↦ rw (begin_h3, down) (record { kept = a })
          ]

      pub on_received-Kept :
          (fuel body_fuel : ℕ) (config : H3Config) (socket : Udp) (bytes : List ℕ) (from : Address)
          (d : Driver x q)
          → Accounted n d
          → Kept (Accounted n) (on_received x q fuel body_fuel config socket bytes from d)
      unfolding on_received
      on_received-Kept fuel body_fuel config socket bytes from d a =
          search (Kept-continue, Kept-if, Kept-state, carried, begin_h3-Kept, poll_loop-Kept) depth
            40
