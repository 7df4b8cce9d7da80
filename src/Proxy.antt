-- ===== src/Proxy.antt =====
-- src/client/proxy.rs: proxy addresses and the handshakes that open a tunnel. A stream is read and
-- written through the calls of `Externals`; texts are compared byte by byte, which is what the
-- lossy UTF-8 decoding of the source comes to, since it leaves ASCII bytes as they are.
pub mod Parse
pub mod Socks
pub mod Connect
pub mod Tests
use quik.Base.{
  ℕ, zero, suc, ◌+◌, ◌-◌, ◌%◌, String, Bool, true, false, not, ◌||◌, ◌==◌, Option, none, some, List,
  [], ◌∷◌, ◌++◌, str_eq, format, if◌then◌else◌, unwrap_or, length, get_elem?, as_bytes, u16_be,
  u16_to_string, begins_with, holds,
}
use quik.Failure.{
  Error, Failure, connect, invalid_url, other, other_line, of_kind, connection_aborted, out_of_fuel,
}
use quik.Effect.{Result, ok, err, Effect, pure, raise, fail, ◌>>=◌, ◌>>◌}
use quik.Url.{UrlLib}
use quik.Externals.{Externals, io}

pub data Proxy : Type 0 where
  http socks5 : String → Proxy

module _ {X : Type 0} (u : UrlLib) where
  unfoldable pub parse : String → Result (Error X) Proxy
  parse url = elim (u.parse url) [
    | err e ↦ err (invalid_url e)
    | ok parsed ↦
        let addr = format (
          unwrap_or (u.host_str parsed) ""
          ∷ ":"
          ∷ u16_to_string (unwrap_or (u.port parsed) 1080)
          ∷ []) in
        if str_eq (u.scheme parsed) "http"
        then ok (http addr)
        else if str_eq (u.scheme parsed) "socks5"
        then ok (socks5 addr)
        else err (invalid_url "Unsupported proxy scheme")
  ]

-- The end of the response head: two line ends.
abbrev pub blank_line : List ℕ
blank_line = 13 ∷ 10 ∷ 13 ∷ 10 ∷ []

-- The bytes of the first line, without its end.
unfoldable pub first_line : List ℕ → List ℕ
first_line [] = []
first_line (b ∷ bytes) =
    if b == 10
    then []
    else if begins_with (b ∷ bytes) (13 ∷ 10 ∷ [])
    then []
    else b ∷ first_line bytes

abbrev pub is_success : List ℕ → Bool
is_success response =
    begins_with response (as_bytes "HTTP/1.1 200") || begins_with response (as_bytes "HTTP/1.0 200")

unfoldable pub connect_request : String → ℕ → List ℕ
connect_request target_host target_port =
    let place = format (target_host ∷ ":" ∷ u16_to_string target_port ∷ []) in
    as_bytes (format ("CONNECT " ∷ place ∷ " HTTP/1.1\r\nHost: " ∷ place ∷ "\r\n\r\n" ∷ []))

-- Version 5, connect, reserved, domain; the length is cast to a u8.
unfoldable pub socks5_request : String → ℕ → List ℕ
socks5_request target_host target_port =
    let host_bytes = as_bytes target_host in
    (5 ∷ 1 ∷ 0 ∷ 3 ∷ (length host_bytes % 256) ∷ []) ++ (host_bytes ++ u16_be target_port)

-- `bytes[i]`, of an index in range.
abbrev pub at : List ℕ → ℕ → ℕ
at bytes i = unwrap_or (get_elem? bytes i) 0

module _ (x : Externals) where
  open x use {World, Foreign, Tcp, tcp_connect_name, read, read_exact, write_all}

  -- The loop of `dial_http_proxy`, with the bytes read so far. The buffer has 4096 bytes.
  unfoldable pub await_head : ℕ → Tcp → List ℕ → Effect World Foreign Tcp
  await_head zero stream response = fail out_of_fuel
  await_head (suc fuel) stream response = do
    bytes ← io (read stream (4096 - length response))
    if length bytes == 0
        then raise (
            connect (of_kind connection_aborted "Proxy closed connection during CONNECT handshake"))
        else if holds (response ++ bytes) blank_line
        then (if is_success (response ++ bytes)
            then pure stream
            else raise (
                connect (
                  other_line "HTTP proxy returned error status: "
                    (first_line (response ++ bytes)))))
        else await_head fuel stream (response ++ bytes)

  -- A round reads a byte at least, and the buffer has room for 4096.
  unfoldable pub dial_http_proxy : String → String → ℕ → Effect World Foreign Tcp
  dial_http_proxy proxy_addr target_host target_port = do
    stream ← io (tcp_connect_name proxy_addr)
    io (write_all stream (connect_request target_host target_port))
    await_head 4097 stream []

  -- The bound address is read and dropped.
  unfoldable pub drain_address : Tcp → ℕ → Effect World Foreign (Unit {0})
  drain_address stream addr_type =
      if addr_type == 1
      then (io (read_exact stream 4) >> pure tt)
      else if addr_type == 3
      then (do len ← io (read_exact stream 1); io (read_exact stream (at len 0)); pure tt)
      else if addr_type == 4
      then (io (read_exact stream 16) >> pure tt)
      else raise (connect (other "SOCKS5 server returned unsupported address type"))

  unfoldable pub dial_socks5_proxy : String → String → ℕ → Effect World Foreign Tcp
  dial_socks5_proxy proxy_addr target_host target_port = do
    stream ← io (tcp_connect_name proxy_addr)
    io (write_all stream (5 ∷ 1 ∷ 0 ∷ []))
    response ← io (read_exact stream 2)
    if not (at response 0 == 5) || not (at response 1 == 0)
        then raise (connect (other "SOCKS5 server rejected 'No Authentication' method"))
        else do
          io (write_all stream (socks5_request target_host target_port))
          resp_header ← io (read_exact stream 4)
          if not (at resp_header 0 == 5) || not (at resp_header 1 == 0)
              then raise (
                  connect (
                    other (
                      format (
                        "SOCKS5 connection request failed with status code: "
                        ∷ u16_to_string (at resp_header 1)
                        ∷ []))))
              else do drain_address stream (at resp_header 3); io (read_exact stream 2); pure stream

  unfoldable pub dial_proxy : Proxy → String → ℕ → Effect World Foreign Tcp
  dial_proxy (http addr) target_host target_port = dial_http_proxy addr target_host target_port
  dial_proxy (socks5 addr) target_host target_port = dial_socks5_proxy addr target_host target_port
