-- ===== src/Externals.antt =====
-- What the program calls and does not implement: the crates `http`, `url`, `cookie_store`, `http2`,
-- `boring`, `tokio-boring` and `quiche`, and the sockets and channels of `tokio`. A call changes the
-- world and answers a value or an error of its own. `ExternalLaws` is what the documentation of
-- `tokio` says of reading.
pub mod Sample
use quik.Base.{ℕ, ◌≤◌, String, Bool, Option, List, length, ◌≡◌}
use quik.Effect.{Result, ok, err, Effect, Ended}
use quik.Failure.{IoError, Error, Failure, error, os, connect, http2, tls_build, tls_handshake}
use quik.Calls.{TlsCall, ConfigCall, Http2Call, QuicCall}
use quik.Http.{HttpLib}
use quik.Url.{UrlLib}

pub record Externals : Type 1 where
  pub http : HttpLib
  pub url : UrlLib
  pub World : Type 0
  pub Foreign : Type 0
  -- `cookie_store`: the name and value of each cookie for a URL, and the storing of a `Set-Cookie`
  pub CookieStore : Type 0
  pub matches : CookieStore → url.Url → List (String × String)
  pub parse_cookie : CookieStore → String → url.Url → CookieStore
  -- `http::Request::builder()` with a method and a URI: the message of its refusal, if it refuses
  pub refusal : String → String → Option String
  pub uri_to_string : String → String
  pub uri_scheme : String → Option String
  pub uri_authority : String → Option String
  pub uri_path_and_query : String → Option String
  -- iteration over a `HeaderMap`, `HeaderName::as_str` and `HeaderValue::as_bytes`
  pub entries : http.HeaderMap → List (String × List ℕ)
  -- names and TCP
  pub Address : Type 0
  pub is_ipv6 : Address → Bool
  pub to_socket_addrs : String → World → Result Foreign (List Address) × World
  pub Tcp : Type 0
  pub tcp_connect_name : String → World → Result Foreign Tcp × World
  pub tcp_connect : Address → World → Result Foreign Tcp × World
  pub read : Tcp → ℕ → World → Result Foreign (List ℕ) × World
  pub read_exact : Tcp → ℕ → World → Result Foreign (List ℕ) × World
  pub write_all : Tcp → List ℕ → World → Result Foreign (Unit {0}) × World
  -- `boring` and `tokio-boring`. A call that cannot fail in Rust answers `ok`.
  pub SslBuilder : Type 0
  pub ssl_builder : World → Result Foreign SslBuilder × World
  pub tls_call : SslBuilder → TlsCall → World → Result Foreign SslBuilder × World
  pub SslConfig : Type 0
  pub configure : SslBuilder → World → Result Foreign SslConfig × World
  pub config_call : SslConfig → ConfigCall → World → Result Foreign SslConfig × World
  pub TlsStream : Type 0
  pub tls_handshake : SslConfig → String → Tcp → World → Result Foreign TlsStream × World
  -- `http2`: the handshake with a configured builder, whose connection task is spawned; readiness
  -- of a handle; and the exchange of one request
  pub SendRequest : Type 0
  pub h2_handshake : List Http2Call → TlsStream → World → Result Foreign SendRequest × World
  pub h2_ready : SendRequest → World → Result Foreign SendRequest × World
  pub ResponseFuture : Type 0
  pub SendStream : Type 0
  pub RecvStream : Type 0
  pub h2_send_request :
      SendRequest
      → String
      → String
      → http.HeaderMap
      → Bool
      → World
      → Result Foreign (ResponseFuture × SendStream) × World
  pub h2_send_data : SendStream → List ℕ → Bool → World → Result Foreign (Unit {0}) × World
  pub h2_response :
      ResponseFuture → World → Result Foreign (ℕ × http.HeaderMap × RecvStream) × World
  pub h2_data : RecvStream → World → Result Foreign (Option (List ℕ × RecvStream)) × World
  -- UDP, and a QUIC connection whose driver runs in the background
  pub Udp : Type 0
  pub udp_bind : String → World → Result Foreign Udp × World
  pub udp_connect : Udp → Address → World → Result Foreign (Unit {0}) × World
  pub QuicConfig : Type 0
  pub quic_config : World → Result Foreign QuicConfig × World
  pub quic_call : QuicConfig → QuicCall → World → Result Foreign QuicConfig × World
  pub Quic : Type 0
  pub quic_connect : String → String → Address → QuicConfig → World → Result Foreign Quic × World
  -- the channels of `tokio`: one that takes commands to a driver, which is spawned with it, and the
  -- one on which the driver, another task, answers a command in its own time. An answer is what a
  -- response is made of: status, headers, body and URL.
  pub Sender : Type 0
  pub spawn_driver : Udp → Quic → Address → World → Sender × World
  pub Receiver : Type 0
  pub send_command :
      Sender
      → List (List ℕ × List ℕ)
      → Option (List ℕ)
      → String
      → World
      → Result Foreign Receiver × World
  pub receive_answer :
      Receiver
      → World
      → Result Foreign (Result (Error Foreign) (ℕ × http.HeaderMap × List ℕ × String)) × World

-- A call of the world's whose error the crate wraps.
abbrev pub wrapped : {S E X A : Type 0} → (E → Error X) → Result E A × S → Result (Failure X) A × S
wrapped wrap (ok a, s) = (ok a, s)
wrapped wrap (err e, s) = (err (error (wrap e)), s)

abbrev pub call : {S E X A : Type 0} → (E → Error X) → (S → Result E A × S) → Effect S X A
call wrap op s = wrapped wrap (op s)

-- `?` at an `std::io::Error`.
abbrev pub io : {S X A : Type 0} → (S → Result X A × S) → Effect S X A
io = call (λ e. connect (os e))

pub Ended-wrapped :
    {S E X A : Type 0} (wrap : E → Error X) (r : Result E A × S) → Ended (wrapped wrap r)
Ended-wrapped wrap (ok a, s) = record { has_ended = λ q. cc }
Ended-wrapped wrap (err e, s) = record { has_ended = λ q. cc }

pub Ended-io : {S X A : Type 0} (op : S → Result X A × S) (s : S) → Ended (io op s)
Ended-io op s = Ended-wrapped (λ e. connect (os e)) (op s)

pub record ExternalLaws (x : Externals) : Type 0 where
  -- a read into a buffer of `n` bytes answers `n` bytes at most
  pub read-length :
      (t : x.Tcp) (n : ℕ) (w w' : x.World) (bytes : List ℕ)
      → x.read t n w ≡ (ok bytes, w')
      → length bytes ≤ n
  -- `read_exact` fills its buffer
  pub read_exact-length :
      (t : x.Tcp) (n : ℕ) (w w' : x.World) (bytes : List ℕ)
      → x.read_exact t n w ≡ (ok bytes, w')
      → length bytes ≡ n
