-- ===== src/Driver/Measures.antt =====
-- src/client/quic.rs: what the loops of the driver use up. Each turn sends a packet, is told of an
-- event, or reads bytes.
use quik.Base.{
  ℕ, zero, suc, ◌+◌, ◌<◌, ◌≤◌, ◌==◌, Bool, true, false, List, [], Option, none, some, Option-cases,
  length, arith, unwrap_or, ap, ◌≡◌, refl, if◌then◌else◌, inl, inr,
}
use mathlib.Core.Option.{some-injective}
use quik.Effect.{Result, ok, err, Effect, continue, Ended, case_option}
use quik.Effect.Kept.{Kept, Kept-state, Kept-if, Kept-continue, Kept-case_option}
use quik.Failure.{Failure}
use quik.Externals.{Externals}
use quik.Quiche.{
  QuicheLib, QuicheLaws, Event, headers_event, data_event, finished_event, other_event, reset_event,
}
use quik.Driver.{Requests, Driver, advance, on_requests, finish, reset, take_headers}
use quik.Driver.Loop.{send_packet, on_h3, read_body, on_event}

module _ {S X A B : Type 0} where
  pub Ended-case :
      (o : Option B) (m : Effect S X A) (f : B → Effect S X A) (s : S)
      → (o ≡ none → Ended (m s))
      → ((b : B) → o ≡ some b → Ended (f b s))
      → Ended (case_option o m f s)
  Ended-case none m f s p k = p refl
  Ended-case (some b) m f s p k = k b refl

  pub Ended-after :
      (P : S → Type 0) (r : Result (Failure X) A × S) (f : A → Effect S X B)
      → Kept P r
      → Ended r
      → ((a : A) (s : S) → P s → Ended (f a s))
      → Ended (continue r f)
  Ended-after P (ok a, s) f k h n = n a s k.kept
  Ended-after P (err e, s) f k h n = record { has_ended = λ q. h.has_ended (cc) }

module _ {S X A : Type 0} where
  pub Ended-ok : (a : A) (s : S) → Ended {X = X} (ok a, s)
  Ended-ok a s = record { has_ended = λ q. cc }

  pub Ended-test :
      (b : Bool) (m k : Effect S X A) (s : S)
      → (b ≡ true → Ended (m s))
      → (b ≡ false → Ended (k s))
      → Ended ((if b then m else k) s)
  Ended-test true m k s p n = p refl
  Ended-test false m k s p n = n refl

pub below : {a b c : ℕ} → a < b → b < suc c → a < c
below h k = omega (arith, h, k)

pub shorter :
    {a b c : ℕ} {o : Option (List ℕ)} {bytes : List ℕ}
    → o ≡ some bytes
    → (length bytes == 0) ≡ false
    → a + length (unwrap_or o []) ≤ b
    → b < suc c
    → a < c
shorter {o = none} e t h k = absurd (cc)
shorter {o = some l} {bytes = bytes} e t h k =
    let same : length l ≡ length bytes = ap length (some-injective l bytes e) in
    grind (arith, t, h, k, same)

module _ (x : Externals) (q : QuicheLib x) (l : QuicheLaws x q) where
  open x use {World, Foreign, Quic, Udp, Address}
  open q use {H3, H3Config}

  -- What a driver has still to be told and to read.
  unfoldable pub untold : Driver x q → ℕ
  untold d = elim d.h3_conn [ none ↦ 0 | some h ↦ l.events h d.conn ]

  unfoldable pub left : Driver x q → ℕ
  left d = elim d.h3_conn [ none ↦ 0 | some h ↦ l.unread h d.conn ]

  pub record IsWithin (n m : ℕ) (d : Driver x q) : Type 0 where
    pub tells : untold d ≤ n
    pub reads : left d ≤ m

  pub send_packet_packets :
      (n : ℕ) (socket : Udp) (packet : List ℕ × Address) (d : Driver x q)
      → l.packets d.conn < n
      → Kept (λ (d : Driver x q). l.packets d.conn < n) (send_packet x q socket packet d)
  send_packet_packets n socket (bytes, to) d b = record { kept = b }

  pub untold_of : (d : Driver x q) (h : H3) → d.h3_conn ≡ some h → untold d ≡ l.events h d.conn
  unfolding untold
  untold_of d h e = rw e refl

  pub left_of : (d : Driver x q) (h : H3) → d.h3_conn ≡ some h → left d ≡ l.unread h d.conn
  unfolding left
  left_of d h e = rw e refl

  pub fewer_left :
      (id k : ℕ) (h : H3) (c : Quic)
      → l.unread (q.recv_body h c id k).1.0 (q.recv_body h c id k).1.1 ≤ l.unread h c
  fewer_left id k h c = omega (arith, l.recv_body-unread h c id k)

  module _ (n m : ℕ) where
    pub on_h3-IsWithin :
        {A : Type 0} (absent : A) (f : H3 → Quic → A × (H3 × Quic)) (d : Driver x q)
        → ((h : H3) (c : Quic) → l.events (f h c).1.0 (f h c).1.1 ≤ l.events h c)
        → ((h : H3) (c : Quic) → l.unread (f h c).1.0 (f h c).1.1 ≤ l.unread h c)
        → IsWithin n m d
        → Kept (IsWithin n m) (on_h3 x q absent f d)
    unfolding untold left
    on_h3-IsWithin absent f d fewer less w = elim (Option-cases d.h3_conn) [
      | inl e ↦ simp (on_h3, e) (record { kept = w })
      | inr (h, e) ↦
          simp (on_h3, e)
            (record {
              kept = record {
                tells = omega (arith, fewer h d.conn, untold_of d h e, w.tells);
                reads = omega (arith, less h d.conn, left_of d h e, w.reads);
              };
            })
    ]

    pub on_requests-IsWithin :
        (g : Requests x → Requests x) (d : Driver x q)
        → IsWithin n m d
        → Kept (IsWithin n m) (on_requests x q g d)
    unfolding untold left
    on_requests-IsWithin g d w = record { kept = record { tells = w.tells; reads = w.reads } }

    pub read_body-IsWithin :
        (fuel id : ℕ) (d : Driver x q)
        → IsWithin n m d
        → Kept (IsWithin n m) (read_body x q fuel id d)
    unfolding read_body
    read_body-IsWithin zero id d w = record { kept = w }
    read_body-IsWithin (suc fuel) id d w =
        search
          (
            Kept-continue,
            Kept-case_option,
            Kept-if,
            Kept-state,
            on_h3-IsWithin,
            on_requests-IsWithin,
            l.recv_body-events,
            fewer_left,
            read_body-IsWithin fuel id,
          )
          depth 40

    pub on_event-IsWithin :
        (fuel id : ℕ) (e : Event) (d : Driver x q)
        → IsWithin n m d
        → Kept (IsWithin n m) (on_event x q fuel id e d)
    unfolding on_event
    on_event-IsWithin fuel id (headers_event list) d w =
        on_requests-IsWithin (advance x id (take_headers x list)) d w
    on_event-IsWithin fuel id data_event d w =
        search (Kept-continue, Kept-if, Kept-state, read_body-IsWithin) depth 40
    on_event-IsWithin fuel id finished_event d w = on_requests-IsWithin (finish x id) d w
    on_event-IsWithin fuel id (reset_event code) d w = on_requests-IsWithin (reset x id code) d w
    on_event-IsWithin fuel id other_event d w = record { kept = w }

  -- The state after a poll that was told of an event.
  unfoldable pub polled : H3 → Driver x q → Driver x q
  polled h d = record d { h3_conn = some (q.poll h d.conn).1.0; conn = (q.poll h d.conn).1.1 }

  pub told_less :
      (h : H3) (event : ℕ × Event) (d : Driver x q)
      → d.h3_conn ≡ some h
      → (q.poll h d.conn).0 ≡ some event
      → (untold (polled h d) < untold d) × (left (polled h d) ≤ left d)
  unfolding untold left polled
  told_less h event d e r = (
    omega (arith, l.poll-events h d.conn event r, untold_of d h e),
    omega (arith, l.poll-unread h d.conn, left_of d h e),
  )

  pub here : (d : Driver x q) → IsWithin (untold d) (left d) d
  here d = record { tells = omega arith; reads = omega arith }
