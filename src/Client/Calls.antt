-- ===== src/Client/Calls.antt =====
-- Whole calls of the client of src/client/pool.rs, one after the other, and the slots of its pool.
use quik.Base.{
  ℕ, ◌<◌, zero, suc, String, Bool, true, Option, List, [], ◌∷◌, arith, ◌≡◌, refl, ◌∙◌, inl, inr,
  Bool-cases, Option-cases,
}
use quik.Effect.Kept.{Kept, Kept-state, Kept-lift, Kept-some_or, Kept-continue, Kept-case_option}
use quik.Externals.{Externals}
use quik.Keys.{request_port}
use quik.Profile.Draw.{Draw}
use quik.Proxy.{Proxy}
use quik.Redirect.{Hop}
use quik.Request.{RequestContext}
use quik.Response.{Request}
use quik.Url.{UrlLaws}
use quik.Client.{PooledConnection, Client, ClientBuilder, build, Act, slot}
use quik.Client.Slots.{IsTyped, build-IsTyped}
use quik.Client.Acquire.{acquire, transmit}
use quik.Client.Fallback.{acquire-IsTyped, transmit-IsTyped}
use quik.Client.Execute.{
  cookie_header, asks_hints, build_request, store_cookies, store_hints, store, solicits,
  exchange_at, exchange, run_hops, execute_with_redirects,
}

module _ (x : Externals) where
  open x use {http, url, World, CookieStore}
  open http use {HeaderMap}
  open url use {Url}

  pub record Call : Type 0 where
    pub method : String
    pub target : String
    pub body : Option (List ℕ)
    pub context : RequestContext

  -- The client after these calls.
  unfoldable pub after : List Call → Client x → Client x
  after [] c = c
  after (call ∷ calls) c =
      after calls (execute_with_redirects x call.method call.target call.body call.context c).1

  module _ (u : UrlLaws url) (proxy : Option Proxy) where
    request_port-u16 : (parsed : Url) → request_port url parsed < 65536
    unfolding request_port
    request_port-u16 parsed = elim (Option-cases (url.port parsed)) [
      | inl e ↦ rw e (ground arith)
      | inr (p, e) ↦ rw e (u.port_u16 parsed p e)
    ]

    moved-IsTyped :
        (c d : Client x)
        → d.pool ≡ c.pool
        → d.proxy ≡ c.proxy
        → IsTyped x proxy c
        → IsTyped x proxy d
    unfolding slot
    moved-IsTyped c d p q t = record {
      same_proxy = q ∙ t.same_proxy;
      typed = λ host port h3 conn b e. t.typed host port h3 conn b (rw p at e);
    }

    store-IsTyped :
        (headers : HeaderMap) (parsed : Url) (c : Client x)
        → IsTyped x proxy c
        → IsTyped x proxy (store x headers parsed c)
    unfolding store store_hints store_cookies
    store-IsTyped headers parsed c t = elim (Bool-cases (solicits x headers)) [
      | inl e ↦
          moved-IsTyped c _ (rw (store, store_hints, e) refl) (rw (store, store_hints, e) refl) t
      | inr e ↦
          moved-IsTyped c _ (rw (store, store_hints, e) refl) (rw (store, store_hints, e) refl) t
    ]

    acquire-Kept :
        (host : String) (parsed : Url) (h3 : Bool) (c : Client x)
        → IsTyped x proxy c
        → Kept (IsTyped x proxy) (acquire x host (request_port url parsed) h3 c)
    acquire-Kept host parsed h3 c t = record {
      kept = acquire-IsTyped x proxy host _ h3 c (request_port-u16 parsed) t;
    }

    build_request-IsTyped :
        (hop : Hop) (parsed : Url) (cookie : Option String) (initial : Bool)
        (context : RequestContext) (accept_ch : Bool) (referer : Option String) (c : Client x)
        → IsTyped x proxy c
        → Kept
            (IsTyped x proxy)
            (build_request x hop parsed cookie initial context accept_ch referer c)
    unfolding build_request
    build_request-IsTyped hop parsed cookie initial context accept_ch referer c t =
        search (Kept-case_option, Kept-state) depth 40

    transmit-Kept :
        (host : String) (parsed : Url) (build : Act x (Request x)) (body : Option (List ℕ))
        (pooled : PooledConnection x) (c : Client x)
        → ((d : Client x) → IsTyped x proxy d → Kept (IsTyped x proxy) (build d))
        → IsTyped x proxy c
        → Kept (IsTyped x proxy) (transmit x host (request_port url parsed) build body pooled c)
    transmit-Kept host parsed build body pooled c keep t = record {
      kept =
          transmit-IsTyped x proxy host _ build body pooled c (request_port-u16 parsed)
            (λ d t. (keep d t).kept) t;
    }

    exchange_at-Kept :
        (context : RequestContext) (initial : Bool) (hop : Hop) (parsed : Url) (c : Client x)
        → IsTyped x proxy c
        → Kept (IsTyped x proxy) (exchange_at x context initial hop parsed c)
    unfolding exchange_at cookie_header asks_hints
    exchange_at-Kept context initial hop parsed c t =
        search
          (
            Kept-continue, Kept-case_option, Kept-lift, Kept-some_or, Kept-state, acquire-Kept,
            transmit-Kept, build_request-IsTyped, store-IsTyped,
          )
          depth 60

    exchange-Kept :
        (context : RequestContext) (initial : Bool) (hop : Hop) (c : Client x)
        → IsTyped x proxy c
        → Kept (IsTyped x proxy) (exchange x context initial hop c)
    unfolding exchange
    exchange-Kept context initial hop c t =
        search (Kept-continue, Kept-lift, exchange_at-Kept) depth 40

    run_hops-Kept :
        (rounds : ℕ) (context : RequestContext) (initial : Bool) (hop : Hop) (c : Client x)
        → IsTyped x proxy c
        → Kept (IsTyped x proxy) (run_hops x rounds context initial hop c)
    unfolding run_hops
    run_hops-Kept zero context initial hop c t = record { kept = t }
    run_hops-Kept (suc rounds) context initial hop c t =
        search (Kept-continue, Kept-case_option, Kept-state, exchange-Kept, run_hops-Kept rounds)
          depth 40

    after-IsTyped :
        (calls : List Call) (c : Client x) → IsTyped x proxy c → IsTyped x proxy (after calls c)
    unfolding after execute_with_redirects
    after-IsTyped [] c t = t
    after-IsTyped (call ∷ calls) c t =
        after-IsTyped calls _ (run_hops-Kept 10 call.context true _ c t).kept

    -- Where the port of a URL is a u16: after any list of calls, one after the other, on a client that
    -- was built with this proxy, every slot of the pool holds a connection of the protocol that its
    -- key names, or none, whatever the servers answered, and however the calls ended.
    pub after-build-IsTyped :
        (draw : Draw) (target_os : String) (jar : CookieStore) (w : World)
        (builder : ClientBuilder x) (calls : List Call)
        → builder.proxy ≡ proxy
        → IsTyped x proxy (after calls (build x draw target_os jar w builder))
    after-build-IsTyped draw target_os jar w builder calls e =
        after-IsTyped calls _ (build-IsTyped x proxy draw target_os jar w builder e)
