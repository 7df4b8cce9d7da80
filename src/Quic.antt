-- ===== src/Quic.antt =====
-- src/client/quic.rs: the transport parameters of QUIC, and a session's side of its driver.
use quik.Base.{ℕ, String, true, false, Option, List, [], ◌∷◌, map, codes, as_bytes, unwrap_or}
use quik.Calls.{
  QuicCall, set_application_protos, set_max_idle_timeout, set_max_recv_udp_payload_size,
  set_max_send_udp_payload_size, set_initial_max_data, set_initial_max_stream_data_bidi_local,
  set_initial_max_stream_data_bidi_remote, set_initial_max_stream_data_uni,
  set_initial_max_streams_bidi, set_initial_max_streams_uni, set_disable_active_migration,
  enable_dgram, discover_pmtu,
}
use quik.Failure.{Error, connect, other_of}
use quik.Effect.{Effect, pure, lift, ◌>>=◌}
use quik.Externals.{Externals, call}
use quik.Profile.{ChromeProfile}
use quik.Response.{Request, Response, http3_body}

-- An error that is made from the text of another one.
abbrev pub told : {X : Type 0} → X → Error X
told e = connect (other_of "" e)

-- The calls on the transport's configuration, in their order.
unfoldable pub transport_calls : List QuicCall
transport_calls =
    set_application_protos (codes "h3" ∷ codes "h3-29" ∷ [])
    ∷ set_max_idle_timeout 30_000
    ∷ set_max_recv_udp_payload_size 1472
    ∷ set_max_send_udp_payload_size 1472
    ∷ set_initial_max_data 15_728_640
    ∷ set_initial_max_stream_data_bidi_local 6_291_456
    ∷ set_initial_max_stream_data_bidi_remote 6_291_456
    ∷ set_initial_max_stream_data_uni 6_291_456
    ∷ set_initial_max_streams_bidi 100
    ∷ set_initial_max_streams_uni 103
    ∷ set_disable_active_migration false
    ∷ enable_dgram true 10 10
    ∷ discover_pmtu true
    ∷ []

module _ (x : Externals) where
  open x use {
    World, Foreign, QuicConfig, Sender, quic_config, quic_call, send_command, receive_answer,
  }

  unfoldable pub apply_calls : List QuicCall → QuicConfig → Effect World Foreign QuicConfig
  apply_calls [] config = pure config
  apply_calls (c ∷ calls) config = call told (quic_call config c) >>= apply_calls calls

  unfoldable pub configure_chrome_quic_transport : Effect World Foreign QuicConfig
  unfolding apply_calls transport_calls
  configure_chrome_quic_transport = call told quic_config >>= apply_calls transport_calls

  pub record QuicSession : Type 0 where
    pub tx : Sender
    pub profile : ChromeProfile

  -- The pseudo-headers and then the headers of a request.
  unfoldable pub request_headers : Request x → List (List ℕ × List ℕ)
  request_headers request =
      (codes ":method", as_bytes request.method)
      ∷ (codes ":scheme", as_bytes (unwrap_or (x.uri_scheme request.uri) "https"))
      ∷ (codes ":authority", as_bytes (unwrap_or (x.uri_authority request.uri) ""))
      ∷ (codes ":path", as_bytes (unwrap_or (x.uri_path_and_query request.uri) "/"))
      ∷ map (λ e. (as_bytes e.0, e.1)) (x.entries request.headers)

  -- The response that the driver made of its parts.
  abbrev pub http3_response : ℕ × x.http.HeaderMap × List ℕ × String → Response x
  http3_response (status, headers, body, url) = record {
    status = status;
    headers = headers;
    body = http3_body body;
    url = url;
  }

  -- `QuicSession::send`.
  unfoldable pub send :
      QuicSession → Request x → Option (List ℕ) → Effect World Foreign (Response x)
  unfolding request_headers
  send session request body = do
    answer ←
        call told
          (send_command session.tx (request_headers request) body (x.uri_to_string request.uri))
    result ← call told (receive_answer answer)
    parts ← lift (λ e. e) result
    pure (http3_response parts)
