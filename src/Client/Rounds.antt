-- ===== src/Client/Rounds.antt =====
-- src/client/pool.rs: one round of the loop of `execute_with_redirects`, and the trail that rounds make.
use quik.Base.{
  is_some, ℕ, zero, suc, String, Bool, true, false, Option, none, some, ◌≡◌, ap, refl, inl, inr,
  Option-cases,
}
use quik.Failure.{Failure, invalid_url}
use quik.Effect.{modify, Result, ok, err, pure, lift, continue, Result-cases, ◌>>=◌, ◌>>◌}
use quik.Externals.{Externals}
use quik.Keys.{request_port, origin_key}
use quik.AltSvc
use quik.Redirect.{Hop, referer_to_send, redirect}
use quik.Request.{RequestContext}
use quik.Response.{Response, set_url}
use quik.Client.{Client, Act, PooledConnection}
use quik.Client.Acquire.{acquire, transmit}
use quik.Client.Execute.{build_request, cookie_header, asks_hints, store, exchange_at, exchange}

module _ (x : Externals) where
  open x use {http, url, Foreign}

  module _ (t : RequestContext) where
    -- A round of the loop: a connection was acquired for the host and port of the hop's URL, the
    -- request of the hop went out over it and was answered, and the redirect engine read the status
    -- and the headers of that answer.
    pub record Round (initial : Bool) (hop : Hop) (answer : Response x) (next : Option Hop)
        : Type 0 where
      pub parsed : url.Url
      pub parses : url.parse hop.current_url ≡ ok parsed
      pub host : String
      pub hosted : url.host_str parsed ≡ some host
      pub cookie : Option String
      pub accept_ch : Bool
      pub has_alt_svc : Bool
      pub pooled : PooledConnection x
      pub asking : Client x
      pub before : Client x
      pub after : Client x
      pub taken : acquire x host (request_port url parsed) has_alt_svc asking ≡ (ok pooled, before)
      pub answered :
          transmit x host
            (request_port url parsed)
            (build_request x hop parsed cookie initial t accept_ch (referer_to_send url hop))
            hop.current_body
            pooled
            before
          ≡ (ok answer, after)
      pub decides : redirect url http hop parsed answer.status answer.headers ≡ ok next

    -- The rounds from a hop to the last one, with the redirects between them and the response of the
    -- last.
    pub data Trail : Bool → Hop → ℕ → Hop → Response x → Type 0 where
      ends :
          {initial : Bool} {hop : Hop} {answer : Response x}
          → Round initial hop answer none
          → Trail initial hop zero hop (set_url x hop.current_url answer)
      turns :
          {initial : Bool} {hop next last : Hop} {answer response : Response x} {n : ℕ}
          → http.is_redirection answer.status ≡ true
          → Round initial hop answer (some next)
          → Trail false next n last response
          → Trail initial hop (suc n) last response

    module _ (initial : Bool) (hop : Hop) (parsed : url.Url)
        (parses : url.parse hop.current_url ≡ ok parsed) where
      record Steps (r : Result (Failure Foreign) (Response x × Option Hop) × Client x)
          : Type 0 where
        pub step :
            (response : Response x) (next : Option Hop)
            → r.0 ≡ ok (response, next)
            → Round initial hop response next

      Steps-continue :
          {A : Type 0} (r : Result (Failure Foreign) A × Client x)
          (f : A → Act x (Response x × Option Hop))
          → ((a : A) (c : Client x) → r ≡ (ok a, c) → Steps (f a c))
          → Steps (continue r f)
      Steps-continue (ok a, c) f k = k a c refl
      Steps-continue (err e, c) f k = record { step = λ response next q. absurd (cc) }

      -- Storing what the answer brings, and the redirect engine on its status and headers.
      settle : Response x → Act x (Response x × Option Hop)
      settle response = do
        modify (store x response.headers parsed)
        next ← lift invalid_url (redirect url http hop parsed response.status response.headers)
        pure (response, next)

      module _ (host : String) (hosted : url.host_str parsed ≡ some host) (cookie : Option String)
          (accept_ch has_alt_svc : Bool) (pooled : PooledConnection x) (asking before : Client x)
          (taken : acquire x host (request_port url parsed) has_alt_svc asking
            ≡ (ok pooled, before)) where
        sending : Result (Failure Foreign) (Response x) × Client x
        sending =
            transmit x host (request_port url parsed)
              (build_request x hop parsed cookie initial t accept_ch (referer_to_send url hop))
              hop.current_body pooled before

        Steps-answered :
            (answer : Response x) (after : Client x)
            → sending ≡ (ok answer, after)
            → Steps (settle answer after)
        unfolding settle sending
        Steps-answered answer after q =
            elim (Result-cases (redirect url http hop parsed answer.status answer.headers)) [
              | inl (e, refused) ↦ rw refused (record { step = λ response next e. absurd (cc) })
              | inr (found, decided) ↦ rw decided (record {
                step = λ response next e. record {
                  parsed = parsed;
                  parses = parses;
                  host = host;
                  hosted = hosted;
                  cookie = cookie;
                  accept_ch = accept_ch;
                  has_alt_svc = has_alt_svc;
                  pooled = pooled;
                  asking = asking;
                  before = before;
                  after = after;
                  taken = taken;
                  answered = cc;
                  decides = cc;
                };
              })
            ]

        Steps-sent : Steps (continue sending settle)
        Steps-sent = Steps-continue sending settle Steps-answered

    exchange_at-Steps :
        (initial : Bool) (hop : Hop) (parsed : url.Url)
        (parses : url.parse hop.current_url ≡ ok parsed) (c : Client x)
        → Steps initial hop parsed parses (exchange_at x t initial hop parsed c)
    unfolding exchange_at settle sending
    exchange_at-Steps initial hop parsed parses c = elim (Option-cases (url.host_str parsed)) [
      | inl missing ↦ rw missing (record { step = λ response next e. absurd (cc) })
      | inr (host, hosted) ↦ rw hosted (
          Steps-continue initial hop parsed parses (cookie_header x parsed c) _ (λ cookie c1 _.
            Steps-continue initial hop parsed parses (asks_hints x parsed c1) _ (λ accept_ch c2 _.
              let has_alt_svc =
                is_some (AltSvc.get c.alt_svc_cache (origin_key host (request_port url parsed))) in
              Steps-continue initial hop parsed parses
                (acquire x host (request_port url parsed) has_alt_svc c2) _
                (λ pooled before taken.
                  Steps-sent initial hop parsed parses host hosted cookie accept_ch has_alt_svc
                    pooled c2 before taken))))
    ]

    pub exchange-Round :
        (initial : Bool) (hop : Hop) (c d : Client x) (response : Response x) (next : Option Hop)
        → exchange x t initial hop c ≡ (ok (response, next), d)
        → Round initial hop response next
    unfolding exchange
    exchange-Round initial hop c d response next e =
        elim (Result-cases (url.parse hop.current_url)) [
          | inl (message, refused) ↦ absurd (cc (rw (refused, exchange) at e))
          | inr (parsed, parses) ↦
              (exchange_at-Steps initial hop parsed parses c).step response next
                (ap (λ r. r.0) (rw (parses, exchange) at e))
        ]
