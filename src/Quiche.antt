-- ===== src/Quiche.antt =====
-- The connections of the crate `quiche` and the socket below them, as the driver of
-- src/client/quic.rs uses them: `Quic` is `quiche::Connection`, `H3` is `quiche::h3::Connection`.
-- `QuicheLaws` is what the documentation of `quiche` says of them.
pub mod Sample
use quik.Base.{
  ℕ, suc, ◌+◌, ◌<◌, ◌≤◌, String, Bool, Option, none, some, List, [], ◌∷◌, length, unwrap_or, ◌≡◌,
  ◌≢◌,
}
use quik.Effect.{Result, ok, err}
use quik.Externals.{Externals}

-- On a `quiche::h3::Config`.
pub data H3Call : Type 0 where
  set_qpack_max_table_capacity set_max_field_section_size set_qpack_blocked_streams : ℕ → H3Call
  enable_extended_connect : Bool → H3Call

-- `quiche::h3::Event`. Those that the driver passes over are `other_event`.
pub data Event : Type 0 where
  headers_event : List (List ℕ × List ℕ) → Event
  data_event finished_event other_event : Event
  reset_event : ℕ → Event

module _ (x : Externals) where
  open x use {World, Foreign, Quic, Udp, Address}

  pub record QuicheLib : Type 1 where
    pub H3 : Type 0
    pub H3Config : Type 0
    pub h3_config : Result Foreign H3Config
    pub h3_call : H3Config → H3Call → H3Config
    -- the socket
    pub send_to : Udp → List ℕ → Address → World → Result Foreign (Unit {0}) × World
    pub local_addr : Udp → Option Address
    -- `quiche::Connection`; `send` fills the buffer with one packet, or has none
    pub is_closed : Quic → Bool
    pub is_established : Quic → Bool
    pub send : Quic → Option (List ℕ × Address) × Quic
    pub recv : Quic → List ℕ → Address → Address → Quic
    pub on_timeout : Quic → Quic
    -- `quiche::h3::Connection`, whose calls borrow the connection below it
    pub with_transport : Quic → H3Config → Result Foreign H3 × Quic
    pub send_request : H3 → Quic → List (List ℕ × List ℕ) → Bool → Result Foreign ℕ × (H3 × Quic)
    pub send_body : H3 → Quic → ℕ → List ℕ → Bool → H3 × Quic
    pub poll : H3 → Quic → Option (ℕ × Event) × (H3 × Quic)
    pub recv_body : H3 → Quic → ℕ → ℕ → Option (List ℕ) × (H3 × Quic)

  module _ (q : QuicheLib) where
    open q use {H3, send_request, send_body, poll, recv_body}

    pub record QuicheLaws : Type 0 where
      -- stream ids are never used twice: `opened` is above every id that was given out
      pub opened : H3 → ℕ
      pub send_request-opened :
          (h h' : H3) (c c' : Quic) (fields : List (List ℕ × List ℕ)) (fin : Bool) (id : ℕ)
          → send_request h c fields fin ≡ (ok id, (h', c'))
          → (opened h ≤ id) × (id < opened h')
      pub send_request-refused :
          (h h' : H3) (c c' : Quic) (fields : List (List ℕ × List ℕ)) (fin : Bool) (e : Foreign)
          → send_request h c fields fin ≡ (err e, (h', c'))
          → opened h ≤ opened h'
      pub send_body-opened :
          (h : H3) (c : Quic) (id : ℕ) (bytes : List ℕ) (fin : Bool)
          → opened h ≤ opened (send_body h c id bytes fin).0
      pub poll-opened : (h : H3) (c : Quic) → opened h ≤ opened (poll h c).1.0
      pub recv_body-opened :
          (h : H3) (c : Quic) (id n : ℕ) → opened h ≤ opened (recv_body h c id n).1.0
      -- a connection has finitely many packets to send, events to report and bytes to read
      pub packets : Quic → ℕ
      pub send-packets :
          (c : Quic) (packet : List ℕ × Address)
          → (q.send c).0 ≡ some packet
          → packets (q.send c).1 < packets c
      pub events : H3 → Quic → ℕ
      pub poll-events :
          (h : H3) (c : Quic) (event : ℕ × Event)
          → (poll h c).0 ≡ some event
          → events (poll h c).1.0 (poll h c).1.1 < events h c
      pub recv_body-events :
          (h : H3) (c : Quic) (id n : ℕ)
          → events (recv_body h c id n).1.0 (recv_body h c id n).1.1 ≤ events h c
      pub unread : H3 → Quic → ℕ
      pub recv_body-unread :
          (h : H3) (c : Quic) (id n : ℕ)
          → unread (recv_body h c id n).1.0 (recv_body h c id n).1.1
              + length (unwrap_or (recv_body h c id n).0 [])
            ≤ unread h c
      pub poll-unread : (h : H3) (c : Quic) → unread (poll h c).1.0 (poll h c).1.1 ≤ unread h c
