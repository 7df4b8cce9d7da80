-- ===== src/Driver.antt =====
-- src/client/quic.rs, `run_quic_driver`, and src/client/h3.rs: the task that owns a QUIC connection.
-- The tasks that wait for a response hold the other ends of channels; a channel is a number, and
-- what was sent on one is in `answered`.
pub mod Loop
pub mod Tally
pub mod Settling
pub mod Accounting
pub mod Commands
pub mod Promise
pub mod Early
pub mod Measures
pub mod Ending
pub mod History
pub mod Assembly
pub mod Answers
pub mod Status
pub mod Outcome
pub mod Brought
pub mod Tests
use mathlib.Core.Option
use quik.Base.{
  ℕ, zero, suc, ◌+◌, ◌*◌, ◌-◌, ◌==◌, ltb, leb, String, Bool, true, false, not, ◌&&◌, Option, none,
  some, List, [], ◌∷◌, ◌++◌, if◌then◌else◌, is_some, unwrap_or, length, codes, decimal, format, map,
}
use quik.Failure.{Error, Failure, connect, other, other_of, out_of_fuel}
use quik.Effect.{Result, ok, err, Effect, pure, fail, ◌>>=◌, ◌>>◌, case_option, gets, modify}
use quik.Externals.{Externals}
use quik.Quiche.{
  QuicheLib, H3Call, set_qpack_max_table_capacity, set_max_field_section_size,
  set_qpack_blocked_streams, enable_extended_connect, Event, headers_event, data_event,
  finished_event, other_event, reset_event,
}
use quik.Response.{Response, http3_body, new}
use quik.Streams.{lookup, insert, remove, update}

-- The calls of `configure_chrome_h3`.
unfoldable pub h3_calls : List H3Call
h3_calls =
    set_qpack_max_table_capacity 0
    ∷ set_max_field_section_size 0
    ∷ set_qpack_blocked_streams 0
    ∷ enable_extended_connect true
    ∷ []

-- The digits of `str::parse::<u16>`, which a text that is not UTF-8 has none of.
unfoldable pub parse_digits : ℕ → List ℕ → Option ℕ
parse_digits n [] = some n
parse_digits n (b ∷ bytes) =
    if leb 48 b && (leb b 57 && leb (10 * n + (b - 48)) 65535)
    then parse_digits (10 * n + (b - 48)) bytes
    else none

-- A plus may stand before them.
unfoldable pub parse_u16 : List ℕ → Option ℕ
unfolding parse_digits
parse_u16 [] = none
parse_u16 (b ∷ []) = parse_digits 0 (b ∷ [])
parse_u16 (b ∷ c ∷ bytes) =
    if b == 43 then parse_digits 0 (c ∷ bytes) else parse_digits 0 (b ∷ c ∷ bytes)

abbrev pub same_bytes : List ℕ → List ℕ → Bool
same_bytes [] [] = true
same_bytes (a ∷ as_) (b ∷ bs) = a == b && same_bytes as_ bs
same_bytes _ _ = false

module _ (x : Externals) where
  open x use {World, Foreign, Quic, Udp, Address, http}
  open http use {HeaderMap}

  pub record PendingRequest : Type 0 where
    pub status : Option ℕ
    pub headers : HeaderMap
    pub body : List ℕ
    pub url : String
    pub response_tx : ℕ

  abbrev pub Answer : Type 0
  Answer = Result (Error Foreign) (Response x)

  -- What a driver owes and what it has delivered.
  pub record Requests : Type 0 where
    pub pending : List (ℕ × PendingRequest)
    pub answered : List (ℕ × Answer)

  pub record Command : Type 0 where
    pub headers : List (List ℕ × List ℕ)
    pub body : Option (List ℕ)
    pub url : String
    pub response_tx : ℕ

  -- `response_tx.send(answer)`.
  unfoldable pub answer : ℕ → Answer → Requests → Requests
  answer tx a r = record r { answered = (tx, a) ∷ r.answered }

  -- A status that does not parse leaves the one before; a header that is not legal is left out.
  unfoldable pub take_header : List ℕ × List ℕ → PendingRequest → PendingRequest
  unfolding parse_u16
  take_header (name, value) req =
      if same_bytes name (codes ":status")
      then elim (parse_u16 value) [
        | none ↦ req
        | some code ↦ elim (http.from_u16 code) [
          | none ↦ req
          | some status ↦ record req { status = some status }
        ]
      ]
      else elim (http.name_from_bytes name) [
        | none ↦ req
        | some header_name ↦ elim (http.value_from_bytes value) [
          | none ↦ req
          | some header_val ↦ record req {
            headers = http.append req.headers header_name header_val;
          }
        ]
      ]

  unfoldable pub take_headers : List (List ℕ × List ℕ) → PendingRequest → PendingRequest
  unfolding take_header
  take_headers [] req = req
  take_headers (header ∷ list) req = take_headers list (take_header header req)

  abbrev pub take_bytes : List ℕ → PendingRequest → PendingRequest
  take_bytes bytes req = record req { body = req.body ++ bytes }

  unfoldable pub response_of : PendingRequest → Response x
  response_of req = new x (unwrap_or req.status 200) req.headers (http3_body req.body) req.url

  abbrev pub reset_error : ℕ → Error Foreign
  reset_error code =
      connect (other (format ("HTTP/3 stream reset by peer: error " ∷ decimal 20 code "" ∷ [])))

  unfoldable pub finish : ℕ → Requests → Requests
  unfolding answer response_of
  finish id r = elim (lookup id r.pending) [
    | none ↦ r
    | some req ↦
        answer req.response_tx (ok (response_of req)) (record r { pending = remove id r.pending })
  ]

  unfoldable pub reset : ℕ → ℕ → Requests → Requests
  unfolding answer
  reset id code r = elim (lookup id r.pending) [
    | none ↦ r
    | some req ↦
        answer req.response_tx (err (reset_error code)) (record r { pending = remove id r.pending })
  ]

  abbrev pub advance : ℕ → (PendingRequest → PendingRequest) → Requests → Requests
  advance id f r = record r { pending = update id f r.pending }

  module _ (q : QuicheLib x) where
    open q use {H3, H3Config}

    unfoldable pub apply_h3_calls : List H3Call → H3Config → H3Config
    apply_h3_calls [] config = config
    apply_h3_calls (c ∷ calls) config = apply_h3_calls calls (q.h3_call config c)

    unfoldable pub configure_chrome_h3 : Result Foreign H3Config
    unfolding apply_h3_calls h3_calls
    configure_chrome_h3 = elim q.h3_config [
      | err e ↦ err e
      | ok config ↦ ok (apply_h3_calls h3_calls config)
    ]

    pub record Driver : Type 0 where
      pub conn : Quic
      pub h3_conn : Option H3
      pub requests : Requests
      pub world : World

    abbrev pub Act : Type 0 → Type 0
    Act A = Effect Driver Foreign A

    abbrev pub on_requests : (Requests → Requests) → Act (Unit {0})
    on_requests f = modify (λ d. record d { requests = f d.requests })
