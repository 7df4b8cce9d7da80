-- ===== src/Calls.antt =====
-- The calls by which src/tls/connector.rs, src/http2/handshake.rs and src/client/quic.rs configure a TLS connector of
-- the crate `boring` and a connection builder of the crate `http2`.
use quik.Base.{ℕ, String, Bool, List}

-- On an `SslConnectorBuilder`.
pub data TlsCall : Type 0 where
  set_min_proto_version set_max_proto_version : ℕ → TlsCall
  set_cipher_list set_curves_list : String → TlsCall
  set_grease_enabled set_permute_extensions : Bool → TlsCall
  set_alpn_protos : List ℕ → TlsCall
  enable_signed_cert_timestamps : TlsCall
  set_signing_algorithm_prefs set_verify_algorithm_prefs : List ℕ → TlsCall
  add_brotli_certificate_compression : TlsCall
  set_verify_none : TlsCall

-- On the configuration of one connection.
pub data ConfigCall : Type 0 where
  set_status_type_ocsp : ConfigCall
  set_enable_ech_grease : ConfigCall
  add_application_settings : List ℕ → List ℕ → ConfigCall

pub data SettingId : Type 0 where
  header_table_size enable_push initial_window_size max_header_list_size : SettingId

pub data PseudoId : Type 0 where
  method authority scheme path : PseudoId

-- On a `http2::client::Builder`.
pub data Http2Call : Type 0 where
  settings_order : List SettingId → Http2Call
  set_header_table_size : ℕ → Http2Call
  set_enable_push : Bool → Http2Call
  set_initial_window_size set_max_header_list_size : ℕ → Http2Call
  set_initial_connection_window_size : ℕ → Http2Call
  headers_pseudo_order : List PseudoId → Http2Call
  headers_stream_dependency : (stream weight : ℕ) → (exclusive : Bool) → Http2Call

-- On a `quiche::Config`.
pub data QuicCall : Type 0 where
  set_application_protos : List (List ℕ) → QuicCall
  set_max_idle_timeout set_max_recv_udp_payload_size : ℕ → QuicCall
  set_max_send_udp_payload_size set_initial_max_data : ℕ → QuicCall
  set_initial_max_stream_data_bidi_local set_initial_max_stream_data_bidi_remote : ℕ → QuicCall
  set_initial_max_stream_data_uni set_initial_max_streams_bidi : ℕ → QuicCall
  set_initial_max_streams_uni : ℕ → QuicCall
  set_disable_active_migration : Bool → QuicCall
  enable_dgram : Bool → (receive send : ℕ) → QuicCall
  discover_pmtu : Bool → QuicCall
  quic_verify_peer : Bool → QuicCall
