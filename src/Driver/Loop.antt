-- ===== src/Driver/Loop.antt =====
-- src/client/quic.rs, the loop of `run_quic_driver`. Which branch `tokio::select!` takes is an
-- argument: a round is given a command, what the socket received, or the end of the timer. An act
-- answers whether the loop goes on; the inner loops run on fuel.
use quik.Base.{
  ℕ, zero, suc, ◌==◌, Bool, true, false, not, ◌&&◌, Option, none, some, List, [], ◌∷◌,
  if◌then◌else◌, is_some, unwrap_or, length,
}
use quik.Failure.{Error, connect, other, other_of, out_of_fuel}
use quik.Effect.{Result, ok, err, pure, fail, ◌>>=◌, ◌>>◌, case_option, gets, modify}
use quik.Externals.{Externals}
use quik.Quiche.{
  QuicheLib, Event, headers_event, data_event, finished_event, other_event, reset_event,
}
use quik.Streams.{lookup, insert}
use quik.Driver.{
  PendingRequest, Requests, Command, Driver, Act, answer, take_headers, take_bytes, finish, reset,
  advance, on_requests, configure_chrome_h3,
}

module _ (x : Externals) where
  open x use {World, Foreign, Quic, Udp, Address, http}

  pub data Input : Type 0 where
    command : Command x → Input
    received : List ℕ → Address → Input
    receive_failed timer : Input

  -- What a command that is refused is told.
  abbrev pub not_established : Error Foreign
  not_established = connect (other "HTTP/3 connection not yet established")

  abbrev pub not_issued : Foreign → Error Foreign
  not_issued e = connect (other_of "Failed to issue HTTP/3 request: " e)

  unfoldable pub new_request : Command x → PendingRequest x
  new_request cmd = record {
    status = none;
    headers = http.empty;
    body = [];
    url = cmd.url;
    response_tx = cmd.response_tx;
  }

  abbrev pub admit : ℕ → PendingRequest x → Requests x → Requests x
  admit id req r = record r { pending = insert id req r.pending }

  module _ (q : QuicheLib x) where
    open q use {H3, H3Config}

    -- `Requests` after the answer to a refused command.
    abbrev pub refuse : Command x → Error Foreign → Driver x q → Driver x q
    refuse cmd e d = record d { requests = answer x cmd.response_tx (err e) d.requests }

    -- A body that is not sent whole is only logged.
    abbrev pub with_body : H3 → Quic → ℕ → Option (List ℕ) → H3 × Quic
    with_body h c id none = (h, c)
    with_body h c id (some bytes) = q.send_body h c id bytes true

    abbrev pub issued : Command x → Result Foreign ℕ × (H3 × Quic) → Driver x q → Driver x q
    issued cmd (err e, (h, c)) d =
        refuse cmd (not_issued e) (record d { h3_conn = some h; conn = c })
    issued cmd (ok id, (h, c)) d =
        let (h', c') = with_body h c id cmd.body in
        record d { h3_conn = some h'; conn = c'; requests = admit id (new_request cmd) d.requests }

    unfoldable pub on_command : Command x → Driver x q → Driver x q
    unfolding new_request
    on_command cmd d = elim d.h3_conn [
      | none ↦ refuse cmd not_established d
      | some h ↦ issued cmd (q.send_request h d.conn cmd.headers (not (is_some cmd.body))) d
    ]

    abbrev pub next_packet : Act x q (Option (List ℕ × Address))
    next_packet d = (ok (q.send d.conn).0, record d { conn = (q.send d.conn).1 })

    abbrev pub is_ok : {A : Type 0} → Result Foreign A → Bool
    is_ok (ok a) = true
    is_ok (err e) = false

    abbrev pub send_packet : Udp → List ℕ × Address → Act x q Bool
    send_packet socket (bytes, to) d =
        let sent = q.send_to socket bytes to d.world in
        (ok (is_ok sent.0), record d { world = sent.1 })

    -- `while let Ok(…) = conn.send(…)`; a packet that the socket refuses ends it.
    unfoldable pub flush : ℕ → Udp → Act x q (Unit {0})
    flush zero socket = fail out_of_fuel
    flush (suc fuel) socket = do
      packet ← next_packet
      case_option packet (pure tt) (λ packet. do
        is_sent ← send_packet socket packet
        if is_sent then flush fuel socket else pure tt)

    -- A call of the HTTP/3 connection, where there is one.
    abbrev pub on_h3 : {A : Type 0} → A → (H3 → Quic → A × (H3 × Quic)) → Act x q A
    on_h3 absent f d = elim d.h3_conn [
      | none ↦ (ok absent, d)
      | some h ↦ let r = f h d.conn in (ok r.0, record d { h3_conn = some r.1.0; conn = r.1.1 })
    ]

    -- `while let Ok(read_len) = h3.recv_body(…)`, into a buffer of 8192 bytes.
    unfoldable pub read_body : ℕ → ℕ → Act x q (Unit {0})
    read_body zero id = fail out_of_fuel
    read_body (suc fuel) id = do
      chunk ← on_h3 none (λ h c. q.recv_body h c id 8192)
      case_option chunk (pure tt) (λ bytes.
          if length bytes == 0
          then pure tt
          else do on_requests x q (advance x id (take_bytes x bytes)); read_body fuel id)

    -- `fuel` is for the body.
    unfoldable pub on_event : ℕ → ℕ → Event → Act x q (Unit {0})
    unfolding read_body
    on_event fuel id (headers_event list) = on_requests x q (advance x id (take_headers x list))
    on_event fuel id data_event = do
      is_pending ← gets (λ d. is_some (lookup id d.requests.pending))
      if is_pending then read_body fuel id else pure tt
    on_event fuel id finished_event = on_requests x q (finish x id)
    on_event fuel id (reset_event code) = on_requests x q (reset x id code)
    on_event fuel id other_event = pure tt

    -- `while let Ok((stream_id, event)) = h3.poll(…)`. The second number is the fuel of a body.
    unfoldable pub poll_loop : ℕ → ℕ → Act x q (Unit {0})
    unfolding on_event
    poll_loop zero body_fuel = fail out_of_fuel
    poll_loop (suc fuel) body_fuel = do
      next ← on_h3 none q.poll
      case_option next (pure tt)
          (λ event. do on_event body_fuel event.0 event.1; poll_loop fuel body_fuel)

    abbrev pub begun : Result Foreign H3 × Quic → Act x q Bool
    begun (err e, conn) d = (ok false, record d { conn = conn })
    begun (ok h3, conn) d = (ok true, record d { conn = conn; h3_conn = some h3 })

    -- The HTTP/3 layer begins with the first packet that finds the handshake complete.
    unfoldable pub begin_h3 : H3Config → Act x q Bool
    begin_h3 config d =
        if q.is_established d.conn && not (is_some d.h3_conn)
        then begun (q.with_transport d.conn config) d
        else (ok true, d)

    abbrev pub take_packet : Udp → List ℕ → Address → Driver x q → Driver x q
    take_packet socket bytes from d = record d {
      conn = q.recv d.conn bytes from (unwrap_or (q.local_addr socket) from);
    }

    unfoldable pub on_received : ℕ → ℕ → H3Config → Udp → List ℕ → Address → Act x q Bool
    unfolding begin_h3 poll_loop
    on_received fuel body_fuel config socket bytes from = do
      modify (take_packet socket bytes from)
      is_up ← begin_h3 config
      if is_up then (poll_loop fuel body_fuel >> pure true) else pure false

    -- A branch of the `select!`: does the loop go on?
    unfoldable pub on_input : ℕ → ℕ → H3Config → Udp → Input → Act x q Bool
    unfolding on_command on_received
    on_input fuel body_fuel config socket (command cmd) = modify (on_command cmd) >> pure true
    on_input fuel body_fuel config socket (received bytes from) =
        on_received fuel body_fuel config socket bytes from
    on_input fuel body_fuel config socket receive_failed = pure true
    on_input fuel body_fuel config socket timer =
        modify (λ d. record d { conn = q.on_timeout d.conn }) >> pure true

    unfoldable pub round : ℕ → ℕ → ℕ → H3Config → Udp → Input → Act x q Bool
    unfolding flush on_input
    round packets fuel body_fuel config socket input = do
      closed ← gets (λ d. q.is_closed d.conn)
      if closed
          then pure false
          else (flush packets socket >> on_input fuel body_fuel config socket input)

    -- The rounds of a list of inputs, up to the round that ends the loop: does it go on?
    unfoldable pub rounds : ℕ → ℕ → ℕ → H3Config → Udp → List Input → Act x q Bool
    unfolding round
    rounds packets fuel body_fuel config socket [] = pure true
    rounds packets fuel body_fuel config socket (input ∷ inputs) = do
      goes_on ← round packets fuel body_fuel config socket input
      if goes_on then rounds packets fuel body_fuel config socket inputs else pure false

    unfoldable pub start : Quic → World → Driver x q
    start conn world = record {
      conn = conn;
      h3_conn = none;
      requests = record { pending = []; answered = [] };
      world = world;
    }

    -- Without a configuration of HTTP/3 the driver ends at once.
    unfoldable pub run_quic_driver : ℕ → ℕ → ℕ → Udp → List Input → Act x q Bool
    unfolding rounds
    run_quic_driver packets fuel body_fuel socket inputs = elim (configure_chrome_h3 x q) [
      | err e ↦ pure false
      | ok config ↦ rounds packets fuel body_fuel config socket inputs
    ]
