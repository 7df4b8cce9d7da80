-- ===== src/Proxy/Tests.antt =====
-- Proxies on a concrete peer: the address of a proxy, a CONNECT answered in two pieces, and the
-- bytes of a SOCKS5 request.
use quik.Base.{
  ℕ, zero, suc, ◌%◌, ◌<◌, ◌≤◌, ◌++◌, length, take, format, u16_be, List, String, true, some, [],
  ◌∷◌, ◌≡◌, refl, ◌↔◌, ◌⊎◌, arith, codes, as_bytes,
}
use quik.Effect.{ok, Ended}
use quik.Url.{UrlLib}
use quik.Url.Sample.{Address, sample_url, sample_url_laws}
use quik.Externals.{Externals}
use quik.Externals.Sample.{Blocks, sample, sample_external_laws}
use quik.Proxy.{http, socks5, parse, dial_http_proxy, socks5_request}
use quik.Proxy.Parse.{address, parse_lem, parse-http_80}
use quik.Proxy.Socks.{socks5_decode, socks5_decode-socks5_request}
use quik.Proxy.Connect.{dial_http_proxy_ends}

abbrev gateway : Address
gateway = record {
  text = "http://proxy.example:80";
  protocol = "http";
  host = "proxy.example";
  is_domain = true;
  port_written = some 80;
}

abbrev web : UrlLib
web = sample_url (gateway ∷ [])

abbrev outside : Externals
outside = sample (gateway ∷ [])

-- A response head in two pieces.
abbrev answer : Blocks
answer = codes "HTTP/1.1 200 OK\r\n" ∷ codes "Via: x\r\n\r\n" ∷ []

dial_http_proxy_ends_example :
    Ended (dial_http_proxy outside "proxy.example:80" "a.example" 443 answer)
dial_http_proxy_ends_example =
    dial_http_proxy_ends outside (sample_external_laws (gateway ∷ [])) "proxy.example:80"
      "a.example" 443 answer

parse_lem_example :
    (parse {X = String} web "http://proxy.example:80" ≡ ok (http "proxy.example:1080")) ↔ (
      ((web.scheme gateway ≡ "http")
        × (http "proxy.example:1080" ≡ http (address web gateway 1080)))
      ⊎ ((web.scheme gateway ≡ "socks5")
          × (http "proxy.example:1080" ≡ socks5 (address web gateway 1080))))
parse_lem_example = parse_lem web "http://proxy.example:80" gateway (http "proxy.example:1080") refl

parse-http_80_example :
    parse {X = String} web "http://proxy.example:80" ≡ ok (http (address web gateway 1080))
unfolding sample_url_laws
parse-http_80_example =
    parse-http_80 web (sample_url_laws (gateway ∷ [])) "http://proxy.example:80" gateway refl refl
      refl

abbrev repeated : ℕ → String → List String
repeated zero s = []
repeated (suc n) s = s ∷ repeated n s

-- A host of 258 bytes.
abbrev long_host : String
long_host = format (repeated 258 "a")

socks5_decode-socks5_request_example :
    ((length (as_bytes long_host) < 256)
      × (socks5_decode (socks5_request long_host 443) ≡ some (as_bytes long_host, 443, [])))
    ⊎ ((256 ≤ length (as_bytes long_host))
        × (seen : ℕ) × (left : List ℕ) × (socks5_decode (socks5_request long_host 443)
            ≡ some (take (length (as_bytes long_host) % 256) (as_bytes long_host), seen, left))
        × (256 ≤ length left))
socks5_decode-socks5_request_example = socks5_decode-socks5_request long_host 443 (omega arith)

cut_short :
    socks5_decode (socks5_request long_host 443)
    ≡ some (codes "aa", 24929, codes (format (repeated 254 "a")) ++ u16_be 443)
unfolding as_bytes socks5_request socks5_decode
cut_short = refl

read_back : socks5_decode (socks5_request "a.example" 443) ≡ some (codes "a.example", 443, [])
unfolding as_bytes socks5_request socks5_decode
read_back = refl
