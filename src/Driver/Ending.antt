-- ===== src/Driver/Ending.antt =====
-- src/client/quic.rs: with fuel enough, no loop of the driver runs out of it.
use quik.Base.{
  ℕ, zero, suc, ◌<◌, ◌≤◌, ◌==◌, true, false, List, none, some, Option-cases, length, arith, subst,
  ◌≡◌, refl, is_some, not, ◌&&◌, if◌then◌else◌, Bool-cases, inl, inr,
}
use quik.Effect.{Result, ok, err, pure, continue, Ended, Ended-continue, ◌>>◌}
use quik.Externals.{Externals}
use quik.Quiche.{
  QuicheLib, QuicheLaws, Event, headers_event, data_event, finished_event, other_event, reset_event,
}
use quik.Streams.{lookup}
use quik.Driver.{Driver, Act}
use quik.Driver.Measures.{
  Ended-case, Ended-after, Ended-ok, Ended-test, untold, left, send_packet_packets, left_of,
  IsWithin, on_event-IsWithin, polled, told_less, here, below, shorter,
}
use quik.Driver.Loop.{
  Input, command, received, receive_failed, timer, next_packet, flush, on_h3, begun, read_body,
  on_event, poll_loop, begin_h3, begun, take_packet, on_received, on_input, round,
}

module _ (x : Externals) (q : QuicheLib x) (l : QuicheLaws x q) where
  open x use {World, Foreign, Quic, Udp, Address}
  open q use {H3, H3Config}

  flush_ends :
      (fuel : ℕ) (socket : Udp) (d : Driver x q)
      → l.packets d.conn < fuel
      → Ended (flush x q fuel socket d)
  unfolding flush
  flush_ends zero socket d b = absurd (omega (arith, b))
  flush_ends (suc fuel) socket d b =
      Ended-case (q.send d.conn).0 _ _ _ (λ e. Ended-ok tt _)
        (λ packet e.
          Ended-after (λ s. l.packets s.conn < fuel) _
            (λ is_sent. if is_sent then flush x q fuel socket else pure tt)
            (send_packet_packets x q l fuel socket packet (next_packet x q d).1
              (below (l.send-packets d.conn packet e) b))
            (Ended-ok _ _)
            (λ is_sent s f.
              Ended-test is_sent (flush x q fuel socket) (pure tt) s
                (λ t. flush_ends fuel socket s f) (λ t. Ended-ok tt s)))

  Ended-on_h3 :
      {A B : Type 0} (absent : A) (f : H3 → Quic → A × (H3 × Quic)) (d : Driver x q)
      (k : A → Act x q B)
      → (d.h3_conn ≡ none → Ended (k absent d))
      → ((h : H3)
          → d.h3_conn ≡ some h
          → Ended (
              k
                (f h d.conn).0
                (record d { h3_conn = some (f h d.conn).1.0; conn = (f h d.conn).1.1 })))
      → Ended (continue (on_h3 x q absent f d) k)
  Ended-on_h3 absent f d k down up = elim (Option-cases d.h3_conn) [
    | inl e ↦ simp (on_h3, e) (down e)
    | inr (h, e) ↦ simp (on_h3, e) (up h e)
  ]

  read_body_ends :
      (fuel id : ℕ) (d : Driver x q) → left x q l d < fuel → Ended (read_body x q fuel id d)
  unfolding read_body left
  read_body_ends zero id d b = absurd (omega (arith, b))
  read_body_ends (suc fuel) id d b =
      Ended-on_h3 none (λ h c. q.recv_body h c id 8192) d _ (λ e. Ended-ok tt _)
        (λ h e.
          Ended-case (q.recv_body h d.conn id 8192).0 _ _ _ (λ n. Ended-ok tt _)
            (λ bytes r.
              Ended-test (length bytes == 0) _ _ _ (λ t. Ended-ok tt _)
                (λ t. read_body_ends fuel id _ (
                  shorter r t (l.recv_body-unread h d.conn id 8192)
                    (subst (λ n. n < suc fuel) (left_of x q l d h e) b)))))

  on_event_ends :
      (fuel id : ℕ) (e : Event) (d : Driver x q)
      → left x q l d < fuel
      → Ended (on_event x q fuel id e d)
  unfolding on_event
  on_event_ends fuel id (headers_event list) d b = Ended-ok tt _
  on_event_ends fuel id data_event d b =
      Ended-test (is_some (lookup id d.requests.pending)) _ _ d (λ t. read_body_ends fuel id d b)
        (λ t. Ended-ok tt d)
  on_event_ends fuel id finished_event d b = Ended-ok tt _
  on_event_ends fuel id (reset_event code) d b = Ended-ok tt _
  on_event_ends fuel id other_event d b = Ended-ok tt _

  pub poll_loop_ends :
      (fuel body_fuel : ℕ) (d : Driver x q)
      → untold x q l d < fuel
      → left x q l d < body_fuel
      → Ended (poll_loop x q fuel body_fuel d)
  unfolding poll_loop polled
  poll_loop_ends zero body_fuel d b c = absurd (omega (arith, b))
  poll_loop_ends (suc fuel) body_fuel d b c =
      Ended-on_h3 none q.poll d _ (λ e. Ended-ok tt _)
        (λ h e.
          Ended-case (q.poll h d.conn).0 _ _ _ (λ n. Ended-ok tt _)
            (λ event r.
              let (fewer, less) = told_less x q l h event d e r in
              Ended-after
                (IsWithin x q l (untold x q l (polled x q l h d)) (left x q l (polled x q l h d))) _
                _
                (on_event-IsWithin x q l _ _ body_fuel event.0 event.1 (polled x q l h d)
                  (here x q l (polled x q l h d)))
                (on_event_ends body_fuel event.0 event.1 (polled x q l h d)
                  (omega (arith, less, c)))
                (λ u s w.
                  poll_loop_ends fuel body_fuel s (omega (arith, w.tells, fewer, b))
                    (omega (arith, w.reads, less, c)))))

  -- Where the driver stands when it begins to poll.
  unfoldable pub arrived : H3Config → Udp → List ℕ → Address → Driver x q → Driver x q
  arrived config socket bytes from d = (begin_h3 x q config (take_packet x q socket bytes from d)).1

  begun_ends : (r : Result Foreign H3 × Quic) (d : Driver x q) → Ended (begun x q r d)
  begun_ends (err e, c) d = Ended-ok false _
  begun_ends (ok h, c) d = Ended-ok true _

  begin_h3_ends : (config : H3Config) (d : Driver x q) → Ended (begin_h3 x q config d)
  unfolding begin_h3
  begin_h3_ends config d = elim (Bool-cases (q.is_established d.conn && not (is_some d.h3_conn))) [
    | inl up ↦ rw (begin_h3, up) (begun_ends _ d)
    | inr down ↦ rw (begin_h3, down) (Ended-ok true d)
  ]

  on_received_ends :
      (fuel body_fuel : ℕ) (config : H3Config) (socket : Udp) (bytes : List ℕ) (from : Address)
      (d : Driver x q)
      → untold x q l (arrived config socket bytes from d) < fuel
      → left x q l (arrived config socket bytes from d) < body_fuel
      → Ended (on_received x q fuel body_fuel config socket bytes from d)
  unfolding on_received arrived
  on_received_ends fuel body_fuel config socket bytes from d b c =
      let after = take_packet x q socket bytes from d in
      Ended-after (λ s. (untold x q l s < fuel) × (left x q l s < body_fuel))
        (begin_h3 x q config after)
        (λ is_up. if is_up then (poll_loop x q fuel body_fuel >> pure true) else pure false)
        (record { kept = (b, c) }) (begin_h3_ends config after)
        (λ is_up s w.
          Ended-test is_up (poll_loop x q fuel body_fuel >> pure true) (pure false) s
            (λ t.
              Ended-continue (poll_loop x q fuel body_fuel s) (λ u. pure true)
                (poll_loop_ends fuel body_fuel s w.0 w.1) (λ u s. Ended-ok true s))
            (λ t. Ended-ok false s))

  -- Fuel that is enough for an input.
  unfoldable pub polls : H3Config → Udp → Input x → Driver x q → ℕ
  polls config socket (command cmd) d = 0
  polls config socket (received bytes from) d =
      suc (untold x q l (arrived config socket bytes from d))
  polls config socket receive_failed d = 0
  polls config socket timer d = 0

  unfoldable pub reads : H3Config → Udp → Input x → Driver x q → ℕ
  reads config socket (command cmd) d = 0
  reads config socket (received bytes from) d =
      suc (left x q l (arrived config socket bytes from d))
  reads config socket receive_failed d = 0
  reads config socket timer d = 0

  on_input_ends :
      (fuel body_fuel : ℕ) (config : H3Config) (socket : Udp) (input : Input x) (d : Driver x q)
      → polls config socket input d ≤ fuel
      → reads config socket input d ≤ body_fuel
      → Ended (on_input x q fuel body_fuel config socket input d)
  unfolding on_input polls reads
  on_input_ends fuel body_fuel config socket (command cmd) d b c = Ended-ok true _
  on_input_ends fuel body_fuel config socket (received bytes from) d b c =
      on_received_ends fuel body_fuel config socket bytes from d (omega (arith, b))
        (omega (arith, c))
  on_input_ends fuel body_fuel config socket receive_failed d b c = Ended-ok true _
  on_input_ends fuel body_fuel config socket timer d b c = Ended-ok true _

  -- Where a connection has finitely many packets to send, events to report and bytes to read, a round
  -- of the driver ends by itself, in any state and with any input, if it may send more packets than
  -- the connection has, and may poll and read as often as the state that the packets leave asks for.
  pub round_ends :
      (packets fuel body_fuel : ℕ) (config : H3Config) (socket : Udp) (input : Input x)
      (d : Driver x q)
      → l.packets d.conn < packets
      → polls config socket input (flush x q packets socket d).1 ≤ fuel
      → reads config socket input (flush x q packets socket d).1 ≤ body_fuel
      → Ended (round x q packets fuel body_fuel config socket input d)
  unfolding round
  round_ends packets fuel body_fuel config socket input d b c e =
      let flushed = (flush x q packets socket d).1 in
      Ended-test (q.is_closed d.conn) (pure false)
        (flush x q packets socket >> on_input x q fuel body_fuel config socket input) d
        (λ t. Ended-ok false d)
        (λ t.
          Ended-after (λ s. s ≡ flushed) (flush x q packets socket d)
            (λ u. on_input x q fuel body_fuel config socket input) (record { kept = refl })
            (flush_ends packets socket d b)
            (λ u s w. rw w (on_input_ends fuel body_fuel config socket input flushed c e)))
