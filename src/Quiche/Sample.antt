-- ===== src/Quiche/Sample.antt =====
-- A concrete `quiche`: a connection is the list of what its peer will say. It shows that the laws can
-- hold, and runs the examples.
use quik.Base.{
  unwrap_or, ℕ, zero, suc, ◌+◌, ◌<◌, ◌≤◌, ◌==◌, String, Bool, true, Option, none, some, List, [],
  ◌∷◌, ◌++◌, length, if◌then◌else◌, ◌≡◌, arith,
}
use quik.Effect.{Result, ok, err}
use quik.Externals.{Externals}
use quik.Externals.Sample.{sample}
use quik.Quiche.{QuicheLib, QuicheLaws, H3Call, Event}

-- What one stream brings: an event, or a piece of a body.
pub data Reply : Type 0 where
  reported : ℕ → Event → Reply
  chunk : ℕ → List ℕ → Reply

pub record Script : Type 0 where
  pub queued : ℕ
  pub is_established : Bool
  pub is_closed : Bool
  pub incoming : List (List Reply)
  pub replies : List Reply

abbrev pub scripted : Externals
scripted = record (sample []) {
  Quic = Script;
  quic_connect = λ h l a c w. (err "unreachable", w);
  spawn_driver = λ u c a w. (tt, w);
}

unfoldable pub next_datagram : ℕ → Option (List ℕ × String) × ℕ
next_datagram zero = (none, 0)
next_datagram (suc n) = (some ([], "peer"), n)

unfoldable pub next_event : List Reply → Option (ℕ × Event) × List Reply
next_event [] = (none, [])
next_event (reported id e ∷ replies) = (some (id, e), replies)
next_event (chunk id bytes ∷ replies) = next_event replies

unfoldable pub next_chunk : ℕ → List Reply → Option (List ℕ) × List Reply
next_chunk id [] = (none, [])
next_chunk id (reported j e ∷ replies) = (none, reported j e ∷ replies)
next_chunk id (chunk j bytes ∷ replies) =
    if j == id then (some bytes, replies) else (none, chunk j bytes ∷ replies)

-- A packet completes the handshake and brings the next replies.
unfoldable pub arrive : Script → Script
arrive c = elim c.incoming [
  | [] ↦ record c { is_established = true }
  | burst ∷ later ↦ record c {
    is_established = true;
    incoming = later;
    replies = c.replies ++ burst;
  }
]

-- Streams are numbered from 0; a request without fields is refused.
unfoldable pub open_stream : ℕ → List (List ℕ × List ℕ) → Result String ℕ × ℕ
open_stream h [] = (err "no fields", h)
open_stream h (field ∷ fields) = (ok h, suc h)

abbrev pub scripted_quiche : QuicheLib scripted
scripted_quiche = record {
  H3 = ℕ;
  H3Config = List H3Call;
  h3_config = ok [];
  h3_call = λ config c. c ∷ config;
  send_to = λ u bytes a w. (ok tt, w);
  local_addr = λ u. none;
  is_closed = λ c. c.is_closed;
  is_established = λ c. c.is_established;
  send = λ c. ((next_datagram c.queued).0, record c { queued = (next_datagram c.queued).1 });
  recv = λ c bytes from to. arrive c;
  on_timeout = λ c. c;
  with_transport = λ c config. (ok 0, c);
  send_request = λ h c fields fin. ((open_stream h fields).0, ((open_stream h fields).1, c));
  send_body = λ h c id bytes fin. (h, c);
  poll = λ h c. ((next_event c.replies).0, (h, record c { replies = (next_event c.replies).1 }));
  recv_body = λ h c id n.
      ((next_chunk id c.replies).0, (h, record c { replies = (next_chunk id c.replies).1 }));
}

abbrev pub body_bytes : List Reply → ℕ
body_bytes [] = 0
body_bytes (reported id e ∷ replies) = body_bytes replies
body_bytes (chunk id bytes ∷ replies) = length bytes + body_bytes replies

pub open_stream-opened :
    (h h' id : ℕ) (c c' : Script) (fields : List (List ℕ × List ℕ))
    → Path
        (Result String ℕ × (ℕ × Script))
        ((open_stream h fields).0, ((open_stream h fields).1, c))
        (ok id, (h', c'))
    → (h ≤ id) × (id < h')
unfolding open_stream
open_stream-opened h h' id c c' [] e = absurd (cc)
open_stream-opened h h' id c c' (field ∷ fields) e =
    let same : h ≡ id = cc in
    let next : suc h ≡ h' = cc in (omega (arith, same), omega (arith, same, next))

pub open_stream-refused :
    (h h' : ℕ) (c c' : Script) (fields : List (List ℕ × List ℕ)) (f : String)
    → Path
        (Result String ℕ × (ℕ × Script))
        ((open_stream h fields).0, ((open_stream h fields).1, c))
        (err f, (h', c'))
    → h ≤ h'
unfolding open_stream
open_stream-refused h h' c c' [] f e = let same : h ≡ h' = cc in omega (arith, same)
open_stream-refused h h' c c' (field ∷ fields) f e = absurd (cc)

pub next_datagram-queued :
    (n : ℕ) (packet : List ℕ × String) → (next_datagram n).0 ≡ some packet → (next_datagram n).1 < n
unfolding next_datagram
next_datagram-queued zero packet e = absurd (cc)
next_datagram-queued (suc n) packet e = omega arith

pub next_event-length :
    (replies : List Reply) (event : ℕ × Event)
    → (next_event replies).0 ≡ some event
    → length (next_event replies).1 < length replies
unfolding next_event
next_event-length [] event e = absurd (cc)
next_event-length (reported id v ∷ replies) event e = omega arith
next_event-length (chunk id bytes ∷ replies) event e =
    omega (arith, next_event-length replies event e)

pub next_event-body_bytes :
    (replies : List Reply) → body_bytes (next_event replies).1 ≤ body_bytes replies
unfolding next_event
next_event-body_bytes [] = omega arith
next_event-body_bytes (reported id v ∷ replies) = omega arith
next_event-body_bytes (chunk id bytes ∷ replies) = omega (arith, next_event-body_bytes replies)

pub next_chunk-length :
    (id : ℕ) (replies : List Reply) → length (next_chunk id replies).1 ≤ length replies
unfolding next_chunk
next_chunk-length id [] = omega arith
next_chunk-length id (reported j v ∷ replies) = omega arith
next_chunk-length id (chunk j bytes ∷ replies) = ground arith

pub next_chunk-body_bytes :
    (id : ℕ) (replies : List Reply)
    → body_bytes (next_chunk id replies).1 + length (unwrap_or (next_chunk id replies).0 [])
      ≤ body_bytes replies
unfolding next_chunk
next_chunk-body_bytes id [] = omega arith
next_chunk-body_bytes id (reported j v ∷ replies) = omega arith
next_chunk-body_bytes id (chunk j b ∷ replies) = ground arith

unfoldable pub scripted_quiche_laws : QuicheLaws scripted scripted_quiche
scripted_quiche_laws = record {
  opened = λ h. h;
  send_request-opened = λ h h' c c' fields fin id e. open_stream-opened h h' id c c' fields e;
  send_request-refused = λ h h' c c' fields fin f e. open_stream-refused h h' c c' fields f e;
  send_body-opened = λ h c id bytes fin. omega arith;
  poll-opened = λ h c. omega arith;
  recv_body-opened = λ h c id n. omega arith;
  packets = λ c. c.queued;
  send-packets = λ c. next_datagram-queued c.queued;
  events = λ h c. length c.replies;
  poll-events = λ h c. next_event-length c.replies;
  recv_body-events = λ h c id n. next_chunk-length id c.replies;
  unread = λ h c. body_bytes c.replies;
  recv_body-unread = λ h c id n. next_chunk-body_bytes id c.replies;
  poll-unread = λ h c. next_event-body_bytes c.replies;
}
