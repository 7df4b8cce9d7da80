-- ===== src/Client/Race/Exchange.antt =====
-- src/client/pool.rs: a round of the loop of `execute_with_redirects` alone, as turns of its task.
use quik.Base.{
  ℕ, String, Bool, false, Option, none, some, is_some, ◌≡◌, refl, subst, ap, ◌∙◌, inl, inr,
  Bool-cases, member,
}
use quik.Failure.{Failure, invalid_url}
use quik.Effect.{Result, ok, err, pure, lift, continue, ◌>>=◌, Result-cases}
use quik.Externals.{Externals}
use quik.Keys.{origin_key, request_port}
use quik.AltSvc
use quik.Redirect.{Hop, redirect, referer_to_send}
use quik.Request.{RequestContext, inject_chrome_headers}
use quik.Response.{Request, Response}
use quik.Client.{Client, Act, slot}
use quik.Client.Acquire.{acquire, transmit}
use quik.Client.Execute.{
  cookie_header, cookie_text, asks_hints, build_request, first_headers, store_cookies, store_hints,
  store, solicits, exchange_at,
}
use quik.Client.Race.{Protocol, peeking, Origin}
use quik.Client.Race.Shown.{Site, Shows}
use quik.Client.Race.Alone.{Alike}
use quik.Client.Race.Acquiring.{advertised}
use quik.Client.Race.Serving.{Serves, then_keeps}
use quik.Client.Race.Hop.{acquire-transmit-Serves}

module _ (x : Externals) (site : Site) (i : ℕ) where
  open x use {http, url, Foreign}
  open site use {host, port}

  moved-Shows :
      (a b : Bool) (c d : Client x)
      → d.pool ≡ c.pool
      → d.proxy ≡ c.proxy
      → Shows x site a b c
      → Shows x site a b d
  unfolding slot
  moved-Shows a b c d p q s = record {
    healthy = ap (λ l. l.is_poisoned) p ∙ s.healthy;
    is_typed = record {
      same_proxy = q ∙ s.is_typed.same_proxy;
      typed = λ host port h3 conn b e. s.is_typed.typed host port h3 conn b (rw p at e);
    };
    shown_3 = rw p s.shown_3;
    shown_2 = rw p s.shown_2;
  }

  store-Shows :
      (a b : Bool) (headers : http.HeaderMap) (parsed : url.Url) (c : Client x)
      → Shows x site a b c
      → Shows x site a b (store x headers parsed c)
  unfolding store store_hints store_cookies
  store-Shows a b headers parsed c s = elim (Bool-cases (solicits x headers)) [
    | inl e ↦
        moved-Shows a b c _ (rw (store, store_hints, e) refl) (rw (store, store_hints, e) refl) s
    | inr e ↦
        moved-Shows a b c _ (rw (store, store_hints, e) refl) (rw (store, store_hints, e) refl) s
  ]

  -- What a round does with its response.
  abbrev keeps : Hop → url.Url → Response x → Act x (Response x × Option Hop)
  keeps hop parsed response c =
      (lift invalid_url (redirect url http hop parsed response.status response.headers)
          >>= (λ next. pure (response, next)))
        (store x response.headers parsed c)

  keeps-Shows :
      (hop : Hop) (parsed : url.Url) (response : Response x) (c : Client x) (a b : Bool)
      → Shows x site a b c
      → Shows x site a b (keeps hop parsed response c).1
  keeps-Shows hop parsed response c a b s =
      elim (Result-cases (redirect url http hop parsed response.status response.headers)) [
        | inl (message, e) ↦ rw e (store-Shows a b response.headers parsed c s)
        | inr (next, e) ↦ rw e (store-Shows a b response.headers parsed c s)
      ]

  regroup :
      {A B C : Type 0} (r : Result (Failure Foreign) A × Client x) (f : A → Act x B)
      (k : B → Act x C)
      → continue (continue r f) k ≡ continue r (λ a. f a >>= k)
  regroup (ok a, c) f k = refl
  regroup (err e, c) f k = refl

  cookie_header_reads :
      (parsed : url.Url) (c : Client x)
      → c.cookie_store.is_poisoned ≡ false
      → cookie_header x parsed c ≡ (ok (cookie_text (x.matches c.cookie_store.value parsed)), c)
  unfolding cookie_header
  cookie_header_reads parsed c e = rw e refl

  asks_hints_reads :
      (parsed : url.Url) (c : Client x)
      → c.hint_cache.is_poisoned ≡ false
      → asks_hints x parsed c
        ≡ (ok (member (url.ascii_serialization (url.origin parsed)) c.hint_cache.value), c)
  unfolding asks_hints
  asks_hints_reads parsed c e = rw e refl

  builds :
      (hop : Hop) (parsed : url.Url) (cookie : Option String) (initial : Bool)
      (context : RequestContext) (accept_ch : Bool) (referer : Option String)
      → x.refusal hop.current_method (url.as_str parsed) ≡ none
      → (c : Client x)
      → (request : Request x) × (build_request x hop parsed cookie initial context accept_ch referer
            c
          ≡ (ok request, c))
  unfolding build_request
  builds hop parsed cookie initial context accept_ch referer allowed c = (
    record {
      method = hop.current_method;
      uri = url.as_str parsed;
      headers =
          inject_chrome_headers http (first_headers x hop parsed cookie) c.profile
            hop.sec_fetch_site initial context accept_ch referer;
    },
    rw (build_request, allowed) refl,
  )

  -- Where the port is a u16, both locks of the origin are free, no lock of the client is poisoned that
  -- a round reads, each of its slots holds a connection of the protocol that its key names, or none,
  -- the origin's slots are filled as the client's, the URL has this host and port, and the builder of
  -- `http` does not refuse the request: a round of the loop of `execute_with_redirects` is a run of a
  -- task that is about to look at the slot of HTTP/3 if the Alt-Svc cache has the origin, and of
  -- HTTP/2 otherwise. By turns of this task alone, in which it is dropped only if the round panics or
  -- runs out of fuel, it comes to an end, and to `done` if the round has an answer; both locks are free
  -- then, and the slots are filled as the client's are afterwards.
  pub exchange_at-Serves :
      (context : RequestContext) (initial : Bool) (hop : Hop) (parsed : url.Url) (p : Protocol)
      (o : Origin) (c : Client x)
      → url.host_str parsed ≡ some host
      → request_port url parsed ≡ port
      → advertised p ≡ is_some (AltSvc.get c.alt_svc_cache (origin_key host port))
      → c.cookie_store.is_poisoned ≡ false
      → c.hint_cache.is_poisoned ≡ false
      → x.refusal hop.current_method (url.as_str parsed) ≡ none
      → o.tasks i ≡ peeking p
      → o.slot_3.lock ≡ none
      → o.slot_2.lock ≡ none
      → Alike x site i o c
      → Serves x site i o (exchange_at x context initial hop parsed c)
  unfolding exchange_at
  exchange_at-Serves context initial hop parsed p o c h q v cookies hints allowed t own free a =
      let cookie = cookie_text (x.matches c.cookie_store.value parsed) in
      let asked = member (url.ascii_serialization (url.origin parsed)) c.hint_cache.value in
      let build =
        build_request x hop parsed cookie initial context asked (referer_to_send url hop) in
      rw (exchange_at, h, q, cookie_header_reads parsed c cookies, asks_hints_reads parsed c hints)
        (subst (Serves x site i o)
          (regroup (acquire x host port (advertised p) c)
              (transmit x host port build hop.current_body) (keeps hop parsed)
            ∙ ap
                (λ b. continue (acquire x host port b c) (λ pooled.
                  transmit x host port build hop.current_body pooled >>= keeps hop parsed))
                v)
          (then_keeps x site i _ o (keeps hop parsed)
            (acquire-transmit-Serves x site i build hop.current_body
              (builds hop parsed cookie initial context asked (referer_to_send url hop) allowed) p o
              c t own free a)
            (keeps-Shows hop parsed)))
