-- ===== src/Proxy/Parse.antt =====
-- What `Proxy::parse` of src/client/proxy.rs makes of a URL.
use quik.Base.{
  ℕ, String, some, [], ◌∷◌, eq_iff, arith, format, unwrap_or, u16_to_string, ◌≡◌, refl, ◌↔◌, ◌⊎◌,
}
use quik.Effect.{ok}
use quik.Url.{UrlLib, UrlLaws}
use quik.Proxy.{Proxy, http, socks5, parse}

-- The address of a proxy URL.
abbrev pub address : (u : UrlLib) → u.Url → ℕ → String
address u x p = format (unwrap_or (u.host_str x) "" ∷ ":" ∷ u16_to_string p ∷ [])

module _ {X : Type 0} (u : UrlLib) where
  open u use {Url, scheme, port}

  -- A URL that parses names a proxy exactly if its scheme is `http` or `socks5`; the proxy has the
  -- URL's host, and its port or else 1080.
  pub parse_lem :
      (text : String) (x : Url) (p : Proxy)
      → u.parse text ≡ ok x
      → (parse {X = X} u text ≡ ok p) ↔ (
          ((scheme x ≡ "http") × (p ≡ http (address u x (unwrap_or (port x) 1080))))
          ⊎ ((scheme x ≡ "socks5") × (p ≡ socks5 (address u x (unwrap_or (port x) 1080)))))
  unfolding parse
  parse_lem text x p e =
      rw (e, parse)
        (ground
          (arith, eq_iff (scheme x) "http", eq_iff (scheme x) "socks5", eq_iff "http" "socks5"))

  -- An HTTP proxy whose URL names port 80 is addressed at port 1080.
  pub parse-http_80 :
      (l : UrlLaws u) (text : String) (x : Url)
      → u.parse text ≡ ok x
      → scheme x ≡ "http"
      → l.written x ≡ some 80
      → parse {X = X} u text ≡ ok (http (address u x 1080))
  unfolding parse
  parse-http_80 l text x e s w = rw (e, parse) (rw (s, l.port_http x s w) refl)
