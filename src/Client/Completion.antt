-- ===== src/Client/Completion.antt =====
-- A whole execution of the client comes to an end: the acquisition of a connection in two rounds, a
-- hop, and the ten hops.
use quik.Base.{
  ℕ, zero, suc, String, Bool, true, Option, none, List, ◌≡◌, refl, inl, inr, Option-cases,
  lookup-insert, eq_refl,
}
use quik.Effect.{Ended, Ended-continue, Ended-settle}
use quik.Externals.{Externals, ExternalLaws, Ended-wrapped}
use quik.Keys.{pool_key}
use quik.Redirect.{Hop}
use quik.Request.{RequestContext}
use quik.Response.{Request}
use quik.Client.{PooledConnection, http2, http3, Client, Act, open_slot, slot, set_slot}
use quik.Client.Ending.{
  Ended-pure, Ended-raise, Ended-panic, Ended-case_option, Ended-case_connection, Ended-if,
  Ended-lift, Ended-some_or, Ended-beside, dial_ends, send_ends,
}
use quik.Client.Acquire.{
  evict, dial_into, fall_back_dial, dial_or_fall_back, acquire_loop, acquire, reacquire,
  retry_over_http2, transmit,
}
use quik.Client.Execute.{
  cookie_header, asks_hints, build_request, exchange_at, exchange, run_hops, execute_with_redirects,
}

module _ (x : Externals) (l : ExternalLaws x) where
  open x use {World, Foreign}

  open_slot_ends : (k : String) (c : Client x) → Ended (open_slot x k c)
  unfolding open_slot
  open_slot_ends k c = search (Ended-continue, Ended-some_or, Ended-pure) depth 40

  dial_into_ends :
      (k host : String) (port : ℕ) (h3 : Bool) (c : Client x) → Ended (dial_into x k host port h3 c)
  unfolding dial_into set_slot
  dial_into_ends k host port h3 c = search (Ended-continue, Ended-pure, dial_ends x l) depth 40

  fall_back_dial_ends :
      (host : String) (port : ℕ) (c : Client x) → Ended (fall_back_dial x host port c)
  unfolding fall_back_dial
  fall_back_dial_ends host port c =
      search (Ended-continue, Ended-case_option, Ended-pure, open_slot_ends, dial_into_ends) depth
        40

  dial_or_fall_back_ends :
      (k host : String) (port : ℕ) (h3 : Bool) (c : Client x)
      → Ended (dial_or_fall_back x k host port h3 c)
  unfolding dial_or_fall_back evict set_slot
  dial_or_fall_back_ends k host port h3 c =
      search (Ended-settle, Ended-pure, Ended-raise, Ended-if, dial_ends x l, fall_back_dial_ends)
        depth 40

  slot-set_slot : (k : String) (c : Client x) → slot x k (set_slot x k none c).1 ≡ none
  unfolding slot set_slot
  slot-set_slot k c = rw (lookup-insert, eq_refl k) refl

  -- From an empty slot one round is enough.
  acquire_empty_ends :
      (fuel : ℕ) (k host : String) (port : ℕ) (h3 : Bool) (c : Client x)
      → slot x k c ≡ none
      → Ended (acquire_loop x (suc fuel) k host port h3 c)
  unfolding acquire_loop
  acquire_empty_ends fuel k host port h3 c e =
      rw (acquire_loop, e) (dial_or_fall_back_ends k host port h3 c)

  acquire_loop_ends :
      (k host : String) (port : ℕ) (h3 : Bool) (c : Client x)
      → Ended (acquire_loop x 2 k host port h3 c)
  unfolding acquire_loop set_slot
  acquire_loop_ends k host port h3 c = elim (Option-cases (slot x k c)) [
    | inl e ↦ acquire_empty_ends 1 k host port h3 c e
    | inr (http3 session, e) ↦ rw (acquire_loop, e) (Ended-pure (http3 session) c)
    | inr (http2 conn, e) ↦
        rw (acquire_loop, e)
          (Ended-settle _ _ _ (Ended-beside x l c _ (Ended-wrapped _ _)) (λ h2 d. Ended-pure _ d)
            (λ f d. acquire_empty_ends 0 k host port h3 _ (slot-set_slot k d)))
  ]

  acquire_ends :
      (host : String) (port : ℕ) (h3 : Bool) (c : Client x) → Ended (acquire x host port h3 c)
  unfolding acquire
  acquire_ends host port h3 c =
      Ended-continue (open_slot x (pool_key c.proxy host port h3) c) _ (open_slot_ends _ c)
        (λ _ d. acquire_loop_ends (pool_key c.proxy host port h3) host port h3 d)

  reacquire_ends : (host : String) (port : ℕ) (c : Client x) → Ended (reacquire x host port c)
  unfolding reacquire set_slot
  reacquire_ends host port c =
      search
        (
          Ended-continue,
          Ended-settle,
          Ended-case_option,
          Ended-case_connection x l,
          Ended-pure,
          Ended-beside x l,
          Ended-wrapped,
          open_slot_ends,
          dial_into_ends,
        )
        depth 40

  transmit_ends :
      (host : String) (port : ℕ) (build : Act x (Request x)) (body : Option (List ℕ))
      (pooled : PooledConnection x) (c : Client x)
      → ((d : Client x) → Ended (build d))
      → Ended (transmit x host port build body pooled c)
  unfolding transmit retry_over_http2 evict
  transmit_ends host port build body pooled c built =
      search
        (
          Ended-continue,
          Ended-settle,
          Ended-case_connection x l,
          Ended-pure,
          Ended-raise,
          Ended-beside x l,
          send_ends x l,
          reacquire_ends,
          built,
        )
        depth 40

  build_request_ends :
      (hop : Hop) (u : x.url.Url) (cookie : Option String) (initial : Bool) (t : RequestContext)
      (accept_ch : Bool) (referer : Option String) (c : Client x)
      → Ended (build_request x hop u cookie initial t accept_ch referer c)
  unfolding build_request
  build_request_ends hop u cookie initial t accept_ch referer c =
      search (Ended-case_option, Ended-pure, Ended-raise) depth 40

  cookie_header_ends : (u : x.url.Url) (c : Client x) → Ended (cookie_header x u c)
  unfolding cookie_header
  cookie_header_ends u c = search (Ended-continue, Ended-some_or, Ended-pure) depth 40

  asks_hints_ends : (u : x.url.Url) (c : Client x) → Ended (asks_hints x u c)
  unfolding asks_hints
  asks_hints_ends u c = search (Ended-case_option, Ended-pure, Ended-panic) depth 40

  exchange_ends :
      (t : RequestContext) (initial : Bool) (hop : Hop) (c : Client x)
      → Ended (exchange x t initial hop c)
  unfolding exchange exchange_at
  exchange_ends t initial hop c =
      search
        (
          Ended-continue, Ended-lift, Ended-some_or, Ended-pure, cookie_header_ends,
          asks_hints_ends, acquire_ends, transmit_ends, build_request_ends,
        )
        depth 60

  run_hops_ends :
      (rounds : ℕ) (t : RequestContext) (initial : Bool) (hop : Hop) (c : Client x)
      → Ended (run_hops x rounds t initial hop c)
  unfolding run_hops
  run_hops_ends zero t initial hop c = Ended-raise _ c
  run_hops_ends (suc rounds) t initial hop c =
      search (Ended-continue, Ended-case_option, Ended-pure, exchange_ends, run_hops_ends rounds)
        depth 40

  -- If a read answers no more bytes than it has room for, then an execution of the client ends in a
  -- response, an error or a panic, whatever servers and proxies answer: none of the loops that take a
  -- connection, await a proxy and follow redirects goes on for ever.
  pub execute_with_redirects_ends :
      (method initial_url : String) (body : Option (List ℕ)) (t : RequestContext) (c : Client x)
      → Ended (execute_with_redirects x method initial_url body t c)
  unfolding execute_with_redirects
  execute_with_redirects_ends method initial_url body t c = run_hops_ends 10 t true _ c
