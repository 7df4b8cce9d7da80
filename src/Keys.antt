-- ===== src/Keys.antt =====
-- src/client/pool.rs: the texts under which a connection and an Alt-Svc advertisement are kept. A
-- port is a u16.
pub mod Injective
pub mod Tests
use quik.Base.{
  ℕ, String, Bool, Option, none, some, List, [], ◌∷◌, str_eq, format, u16_to_string, if◌then◌else◌,
  unwrap_or,
}
use quik.Url.{UrlLib}
use quik.Proxy.{Proxy, http, socks5}

-- What keeps the connections through different proxies apart.
unfoldable pub proxy_prefix : Option Proxy → String
proxy_prefix none = ""
proxy_prefix (some (http a)) = format ("http://" ∷ a ∷ "@" ∷ [])
proxy_prefix (some (socks5 a)) = format ("socks5://" ∷ a ∷ "@" ∷ [])

unfoldable pub origin_key : String → ℕ → String
origin_key authority port = format (authority ∷ ":" ∷ u16_to_string port ∷ [])

unfoldable pub transport_proto : Bool → String
transport_proto has_alt_svc = if has_alt_svc then "h3" else "h2"

unfoldable pub pool_key : Option Proxy → String → ℕ → Bool → String
unfolding proxy_prefix transport_proto
pool_key proxy authority port has_alt_svc = format (
    proxy_prefix proxy
    ∷ authority
    ∷ ":"
    ∷ u16_to_string port
    ∷ "#"
    ∷ transport_proto has_alt_svc
    ∷ [])

-- The port of a request: the URL's, or the default by its scheme.
unfoldable pub request_port : (u : UrlLib) → u.Url → ℕ
request_port u parsed_url =
    unwrap_or (u.port parsed_url) (if str_eq (u.scheme parsed_url) "http" then 80 else 443)
