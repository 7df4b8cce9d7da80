-- ===== src/Client/Execute.antt =====
-- src/client/pool.rs: `execute_with_redirects`, its requests and what it keeps of an answer.

use quik.Base.{
  ℕ, zero, suc, ◌+◌, String, Bool, true, false, ◌&&◌, ◌||◌, Option, none, some, List, [], ◌∷◌,
  if◌then◌else◌, str_eq, map, format, codes, holds, member, add, leb, is_some,
}
use quik.Failure.{connect, invalid_url, other, panicked}
use quik.Effect.{pure, raise, fail, lift, some_or, case_option, gets, modify, ◌>>=◌, ◌>>◌}
use quik.Externals.{Externals}
use quik.Lock
use quik.Keys.{origin_key, request_port}
use quik.AltSvc
use quik.AltSvc.{store_alt_svc}
use quik.Redirect.{Hop, first_hop, referer_to_send, redirect}
use quik.Request.{RequestContext, navigate, insert_text, inject_chrome_headers}
use quik.Response.{Request, Response, set_url}
use quik.Client.{Client, Act}
use quik.Client.Acquire.{acquire, transmit}

-- `join("; ")`.
unfoldable pub join : List String → String
join [] = ""
join (piece ∷ []) = piece
join (piece ∷ pieces) = format (piece ∷ "; " ∷ join pieces ∷ [])

-- `to_lowercase` of an ASCII text, as code points: the text of a header value is ASCII.
abbrev pub lowercase : ℕ → ℕ
lowercase c = if leb 65 c && leb c 90 then c + 32 else c

-- No header where no cookie matches.
unfoldable pub cookie_text : List (String × String) → Option String
unfolding join
cookie_text [] = none
cookie_text (first ∷ rest) = some (join (map (λ c. format (c.0 ∷ "=" ∷ c.1 ∷ [])) (first ∷ rest)))

unfoldable pub carries_body : String → Bool
carries_body method = str_eq method "POST" || (str_eq method "PUT" || str_eq method "PATCH")

module _ (x : Externals) where
  open x use {http, url, CookieStore, matches, parse_cookie, refusal}
  open http use {HeaderMap, HeaderValue, to_str}
  open url use {Url, host_str, origin, ascii_serialization}

  unfoldable pub cookie_header : Url → Act x (Option String)
  unfolding cookie_text
  cookie_header parsed_url = do
    store ← gets (λ c. Lock.read c.cookie_store)
    store ← some_or (connect (other "cookie store poisoned")) store
    pure (cookie_text (matches store parsed_url))

  -- A poisoned lock is a panic here.
  unfoldable pub asks_hints : Url → Act x Bool
  asks_hints parsed_url = do
    cache ← gets (λ c. Lock.read c.hint_cache)
    case_option cache (fail panicked)
        (λ origins. pure (member (ascii_serialization (origin parsed_url)) origins))

  -- The headers under those of the identity.
  unfoldable pub first_headers : Hop → Url → Option String → HeaderMap
  unfolding carries_body
  first_headers hop parsed_url cookie =
      let m : HeaderMap = elim cookie [
        | none ↦ http.empty
        | some text ↦ insert_text http http.empty "cookie" text
      ] in
      if carries_body hop.current_method
      then insert_text http m "origin" (ascii_serialization (origin parsed_url))
      else m

  unfoldable pub build_request :
      Hop → Url → Option String → Bool → RequestContext → Bool → Option String → Act x (Request x)
  unfolding first_headers
  build_request hop parsed_url cookie initial context accept_ch referer =
      case_option (refusal hop.current_method (url.as_str parsed_url))
        (do
          profile ← gets (λ c. c.profile)
          pure (record {
            method = hop.current_method;
            uri = url.as_str parsed_url;
            headers =
                inject_chrome_headers http (first_headers hop parsed_url cookie) profile
                  hop.sec_fetch_site initial context accept_ch referer;
          }))
        (λ message. raise (invalid_url message))

  -- A cookie that does not parse is passed over.
  unfoldable pub parse_cookies : List HeaderValue → Url → CookieStore → CookieStore
  parse_cookies [] parsed_url store = store
  parse_cookies (v ∷ values) parsed_url store =
      parse_cookies values parsed_url
        (elim (to_str v) [ none ↦ store | some text ↦ parse_cookie store text parsed_url ])

  unfoldable pub store_cookies : HeaderMap → Url → Client x → Client x
  unfolding parse_cookies
  store_cookies headers parsed_url c = record c {
    cookie_store =
        Lock.write (parse_cookies (http.get_all headers "set-cookie") parsed_url) c.cookie_store;
  }

  -- Does the server ask for the platform version?
  unfoldable pub solicits : HeaderMap → Bool
  solicits headers = elim (http.get headers "accept-ch") [
    | none ↦ false
    | some v ↦ elim (to_str v) [
      | none ↦ false
      | some text ↦ holds (map lowercase (codes text)) (codes "sec-ch-ua-platform-version")
    ]
  ]

  unfoldable pub store_hints : HeaderMap → Url → Client x → Client x
  unfolding solicits
  store_hints headers parsed_url c =
      if solicits headers
      then record c {
        hint_cache = Lock.write (add (ascii_serialization (origin parsed_url))) c.hint_cache;
      }
      else c

  unfoldable pub store : HeaderMap → Url → Client x → Client x
  unfolding store_cookies store_hints
  store headers parsed_url c =
      let c = store_hints headers parsed_url (store_cookies headers parsed_url c) in
      record c { alt_svc_cache = store_alt_svc url http c.alt_svc_cache headers parsed_url }

  -- One round of the loop, from its parsed URL on: the response, and the next hop if it is a redirect
  -- to follow.
  unfoldable pub exchange_at : RequestContext → Bool → Hop → Url → Act x (Response x × Option Hop)
  unfolding cookie_header asks_hints build_request store
  exchange_at context initial hop parsed_url = do
    authority ← some_or (invalid_url "missing host") (host_str parsed_url)
    let port = request_port url parsed_url
    has_alt_svc ← gets (λ c. is_some (AltSvc.get c.alt_svc_cache (origin_key authority port)))
    cookie ← cookie_header parsed_url
    accept_ch ← asks_hints parsed_url
    let referer = referer_to_send url hop
    pooled ← acquire x authority port has_alt_svc
    response ←
        transmit x authority port
          (build_request hop parsed_url cookie initial context accept_ch referer) hop.current_body
          pooled
    modify (store response.headers parsed_url)
    next ← lift invalid_url (redirect url http hop parsed_url response.status response.headers)
    pure (response, next)

  unfoldable pub exchange : RequestContext → Bool → Hop → Act x (Response x × Option Hop)
  unfolding exchange_at
  exchange context initial hop = do
    parsed_url ← lift invalid_url (url.parse hop.current_url)
    exchange_at context initial hop parsed_url

  -- With the rounds that are left.
  unfoldable pub run_hops : ℕ → RequestContext → Bool → Hop → Act x (Response x)
  unfolding exchange
  run_hops zero context initial hop = raise (connect (other "Redirect limit exceeded (max 10)"))
  run_hops (suc rounds) context initial hop = do
    (response, next) ← exchange context initial hop
    case_option next (pure (set_url x hop.current_url response))
        (λ following. run_hops rounds context false following)

  unfoldable pub execute_with_redirects :
      String → String → Option (List ℕ) → RequestContext → Act x (Response x)
  unfolding run_hops
  execute_with_redirects method initial_url body context =
      run_hops 10 context true (first_hop method initial_url body)

  unfoldable pub get : String → Act x (Response x)
  get target = execute_with_redirects "GET" target none navigate

  unfoldable pub post : String → List ℕ → Act x (Response x)
  post target body = execute_with_redirects "POST" target (some body) navigate
