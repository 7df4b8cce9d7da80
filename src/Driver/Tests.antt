-- ===== src/Driver/Tests.antt =====
-- A driver on the concrete connection of Quiche/Sample: one packet completes the handshake, the next
-- brings a response in pieces, between the events of another stream.
use quik.Base.{
  is_some, not, ℕ, ◌<◌, ◌≤◌, true, false, none, some, [], ◌∷◌, List, codes, ◌≡◌, refl, arith, inr,
}
use quik.Effect.{ok, err, Ended}
use quik.Quiche.{headers_event, data_event, finished_event, reset_event}
use quik.Quiche.Sample.{
  Reply, reported, chunk, Script, scripted, scripted_quiche, scripted_quiche_laws, next_datagram,
  next_event, next_chunk, arrive, open_stream,
}
use quik.Streams.{lookup, insert, remove, update}
use quik.Driver.{
  PendingRequest, reset_error, Command, Driver, configure_chrome_h3, answer, take_header,
  take_headers, response_of, finish, reset, parse_digits, parse_u16, h3_calls, apply_h3_calls,
}
use quik.Driver.Loop.{
  Input, command, received, timer, new_request, on_command, flush, read_body, on_event, poll_loop,
  begin_h3, on_received, on_input, round, rounds, start, run_quic_driver,
}
use quik.Driver.Tally.{owed}
use quik.Driver.Promise.{commanded, run_quic_driver-owed_at_most, run_quic_driver-owed}
use quik.Driver.Early.{Refusing, NoPacket, IsPacket, run_quic_driver-Refusing}
use quik.Driver.Measures.{untold, left}
use quik.Driver.History.{event, bytes_read, History, IsFate}
use quik.Driver.Answers.{ends, poll_loop-ends}
use quik.Driver.Assembly.{IsHeard}
use quik.Driver.Status.{names_status, number_of}
use quik.Driver.Outcome.{own, outcome}
use quik.Driver.Brought.{poll_loop-IsFate}
use quik.Response.{http3_body}
use quik.Driver.Ending.{arrived, polls, reads, round_ends}

abbrev fetch : ℕ → Command scripted
fetch tx = record {
  headers = (codes ":method", codes "GET") ∷ [];
  body = none;
  url = "https://a.example/";
  response_tx = tx;
}

abbrev burst : List Reply
burst =
    reported 0 (headers_event ((codes ":status", codes "404") ∷ []))
    ∷ reported 4 (headers_event ((codes ":status", codes "200") ∷ []))
    ∷ reported 0 data_event
    ∷ chunk 0 (1 ∷ 2 ∷ [])
    ∷ reported 4 (reset_event 3)
    ∷ reported 0 data_event
    ∷ chunk 0 (3 ∷ [])
    ∷ reported 0 finished_event
    ∷ []

abbrev peer : Script
peer = record {
  queued = 1;
  is_established = false;
  is_closed = false;
  incoming = [] ∷ burst ∷ [];
  replies = [];
}

abbrev packet : Input scripted
packet = received [] "peer"

abbrev inputs : List (Input scripted)
inputs = command (fetch 5) ∷ packet ∷ command (fetch 7) ∷ command (fetch 9) ∷ packet ∷ timer ∷ []

inputs_end :
    (run_quic_driver scripted scripted_quiche 9 9 9 tt inputs
      (start scripted scripted_quiche peer [])).0
    ≡ ok true
unfolding run_quic_driver configure_chrome_h3 h3_calls apply_h3_calls rounds round flush on_input
    on_command on_received begin_h3 poll_loop on_event read_body new_request start answer
    take_header take_headers response_of finish reset parse_digits parse_u16 lookup insert remove
    update next_datagram next_event next_chunk arrive open_stream
inputs_end = refl

run_quic_driver-owed_at_most_example :
    owed scripted 7
      (run_quic_driver scripted scripted_quiche 9 9 9 tt inputs
        (start scripted scripted_quiche peer [])).1.requests
    ≤ commanded scripted 7 inputs
run_quic_driver-owed_at_most_example =
    run_quic_driver-owed_at_most scripted scripted_quiche scripted_quiche_laws 9 9 9 tt inputs peer
      [] 7

run_quic_driver-owed_example :
    owed scripted 7
      (run_quic_driver scripted scripted_quiche 9 9 9 tt inputs
        (start scripted scripted_quiche peer [])).1.requests
    ≡ commanded scripted 7 inputs
run_quic_driver-owed_example =
    run_quic_driver-owed scripted scripted_quiche scripted_quiche_laws 9 9 9 tt inputs peer [] 7
      inputs_end

abbrev early : List (Input scripted)
early = command (fetch 5) ∷ timer ∷ command (fetch 7) ∷ []

early-NoPacket : NoPacket scripted early
unfolding NoPacket IsPacket
early-NoPacket = (λ p. p, (λ p. p, (λ p. p, tt)))

run_quic_driver-Refusing_example :
    Refusing scripted
      (run_quic_driver scripted scripted_quiche 9 9 9 tt early
        (start scripted scripted_quiche peer [])).1.requests
run_quic_driver-Refusing_example =
    run_quic_driver-Refusing scripted scripted_quiche 9 9 9 tt early peer [] early-NoPacket

-- A driver to which a burst is on its way.
abbrev ready : Driver scripted scripted_quiche
ready = record (start scripted scripted_quiche (record peer { incoming = burst ∷ [] }) []) {
  h3_conn = some 8;
}

sends : scripted_quiche_laws.packets ready.conn < 2
unfolding start scripted_quiche_laws
sends = omega arith

enough_polls :
    polls scripted scripted_quiche scripted_quiche_laws [] tt packet
      (flush scripted scripted_quiche 2 tt ready).1
    ≤ 9
unfolding scripted_quiche_laws polls arrived untold begin_h3 flush start next_datagram next_event
    arrive
enough_polls = omega arith

enough_reads :
    reads scripted scripted_quiche scripted_quiche_laws [] tt packet
      (flush scripted scripted_quiche 2 tt ready).1
    ≤ 9
unfolding scripted_quiche_laws reads arrived left begin_h3 flush start next_datagram next_event
    arrive
enough_reads = omega arith

round_ends_example : Ended (round scripted scripted_quiche 2 9 9 [] tt packet ready)
round_ends_example =
    round_ends scripted scripted_quiche scripted_quiche_laws 2 9 9 [] tt packet ready sends
      enough_polls enough_reads

abbrev waits : ℕ → PendingRequest scripted
waits tx = record {
  status = none;
  headers = [];
  body = [];
  url = "https://a.example/";
  response_tx = tx;
}

-- Two streams wait, and the burst is there.
abbrev listening : Driver scripted scripted_quiche
listening = record {
  conn = record peer { replies = burst };
  h3_conn = some 8;
  requests = record { pending = (0, waits 5) ∷ (4, waits 7) ∷ []; answered = [] };
  world = [];
}

waits_at_0 : lookup 0 listening.requests.pending ≡ some (waits 5)
unfolding lookup
waits_at_0 = refl

poll_loop-IsFate_example :
    (history : History) × IsHeard scripted scripted_quiche 8 listening
      (poll_loop scripted scripted_quiche 9 9 listening).1
      history
    × IsFate scripted 0 5
        (outcome scripted (own 0 history) (waits 5))
        (poll_loop scripted scripted_quiche 9 9 listening).1.requests
poll_loop-IsFate_example =
    poll_loop-IsFate scripted scripted_quiche 9 9 listening 8 0 (waits 5) refl waits_at_0

-- The reports of the burst, the latest first, and one more that comes too late.
abbrev heard : History
heard =
    (0, bytes_read (9 ∷ []))
    ∷ (0, event finished_event)
    ∷ (0, bytes_read (3 ∷ []))
    ∷ (4, event (reset_event 3))
    ∷ (0, bytes_read (1 ∷ 2 ∷ []))
    ∷ (0, event (headers_event ((codes ":status", codes "404") ∷ [])))
    ∷ []

brought_to_0 :
    outcome scripted (own 0 heard) (waits 5)
    ≡ inr (
        ok (record {
          status = 404;
          headers = [];
          body = http3_body (1 ∷ 2 ∷ 3 ∷ []);
          url = "https://a.example/";
        }))
unfolding outcome own number_of names_status
brought_to_0 = refl

few_polls : untold scripted scripted_quiche scripted_quiche_laws listening < 9
unfolding untold scripted_quiche_laws
few_polls = omega arith

few_reads : left scripted scripted_quiche scripted_quiche_laws listening < 9
unfolding left scripted_quiche_laws
few_reads = omega arith

poll_loop-ends_example :
    Ended (poll_loop scripted scripted_quiche 9 9 listening)
    × (history : History) × IsHeard scripted scripted_quiche 8 listening
        (poll_loop scripted scripted_quiche 9 9 listening).1
        history
    × (is_some (lookup 0 (poll_loop scripted scripted_quiche 9 9 listening).1.requests.pending)
        ≡ not (ends 0 history))
poll_loop-ends_example =
    poll_loop-ends scripted scripted_quiche scripted_quiche_laws 9 9 listening 8 0 (waits 5)
      few_polls few_reads refl waits_at_0

-- The response that stream 0 got: its body in one piece, with the status that its headers brought.
stream_0_answer :
    (poll_loop scripted scripted_quiche 9 9 listening).1.requests.answered
    ≡ (
      5,
      ok (record {
        status = 404;
        headers = [];
        body = http3_body (1 ∷ 2 ∷ 3 ∷ []);
        url = "https://a.example/";
      }),
    )
      ∷ (7, err (reset_error scripted 3))
      ∷ []
unfolding poll_loop on_event read_body answer take_header take_headers response_of finish reset
    parse_digits parse_u16 lookup remove update next_event next_chunk
stream_0_answer = refl
