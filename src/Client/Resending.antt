-- ===== src/Client/Resending.antt =====
-- What sending a request in src/client/pool.rs keeps true of the client, also when HTTP/3 loses it and
-- it is sent again over HTTP/2.
use quik.Base.{ℕ, ◌<◌, String, false, Option, ◌≡◌, subst, ap, inl, inr, Option-cases, refl, List}
use quik.Failure.{Error, Failure, error, panicked, out_of_fuel}
use quik.Effect.{raise, Result, ok, err, Call-cases}
use quik.Externals.{Externals}
use quik.Keys.{pool_key, origin_key}
use quik.Proxy.{Proxy}
use quik.Response.{Request, Response}
use quik.Client.{
  PooledConnection, http2, http3, Client, Act, case_connection, open_slot, slot, set_slot, send,
}
use quik.Client.Acquire.{evict, reacquire, retry_over_http2, transmit}
use quik.Client.Keeping.{Stable, opened, named, dial_into_kept, filled}

module _ (x : Externals) where
  open x use {World, Foreign}

  module _ (proxy : Option Proxy) where
    module _ (P : Client x → Type 0) (s : Stable x proxy P) (host : String) (port : ℕ)
        (bound : port < 65536) where
      build_kept :
          (build : Act x (Request x)) (c d : Client x) (r : Result (Failure Foreign) (Request x))
          → ((e : Client x) → P e → P (build e).1)
          → P c
          → build c ≡ (r, d)
          → P d
      build_kept build c d r keep p e = subst P (ap (λ q. q.1) e) (keep c p)

      reacquire_kept : (c : Client x) → P c → P (reacquire x host port c).1
      unfolding reacquire set_slot
      reacquire_kept c p =
          let k = pool_key c.proxy host port false in
          elim (Call-cases (open_slot x k c)) [
            | inl (f, d, e) ↦
                rw (reacquire, e) (opened x proxy P s host port bound k c d (err f) p e)
            | inr (_, d, e) ↦
                let p' = opened x proxy P s host port bound k c d (ok _) p e in
                let q = named x proxy P s host port bound c false p in
                elim (Option-cases (slot x k d)) [
                  | inl new ↦
                      rw (reacquire, e, new)
                        (dial_into_kept x proxy P s host port bound false k d q p')
                  | inr (http3 session, held) ↦
                      rw (reacquire, e, held)
                        (dial_into_kept x proxy P s host port bound false k d q p')
                  | inr (http2 conn, held) ↦ elim (Call-cases (x.h2_ready conn.h2 d.world)) [
                    | inr (h2, w, ready) ↦
                        rw (reacquire, e, held, ready)
                          (filled x proxy P s host port bound false k _
                            (http2 (record conn { h2 = h2 })) q refl (s.moves d w p'))
                    | inl (f, w, dead) ↦
                        rw (reacquire, e, held, dead)
                          (dial_into_kept x proxy P s host port bound false k _ q (s.moves d w p'))
                  ]
                ]
          ]

      pub retry_kept :
          (build : Act x (Request x)) (body : Option (List ℕ)) (c : Client x)
          → ((e : Client x) → P e → P (build e).1)
          → P c
          → P (retry_over_http2 x host port build body c).1
      unfolding retry_over_http2
      retry_kept build body c keep p =
          let c' = (evict x (origin_key host port) c).1 in
          let gone = s.evicts c (origin_key host port) p in
          elim (Call-cases (reacquire x host port c')) [
            | inl (f, d, e) ↦
                unfold evict in
                rw (retry_over_http2, e) (subst P (ap (λ q. q.1) e) (reacquire_kept c' gone))
            | inr (conn, d, e) ↦
                let p' = subst P (ap (λ q. q.1) e) (reacquire_kept c' gone) in
                elim (Call-cases (build d)) [
                  | inl (f, d', b) ↦
                      unfold evict in
                      rw (retry_over_http2, e, b) (build_kept build d d' (err f) keep p' b)
                  | inr (request, d', b) ↦
                      unfold evict in
                      rw (retry_over_http2, e, b)
                        (s.moves d' _ (build_kept build d d' (ok request) keep p' b))
                ]
          ]

      lost_kept :
          (build : Act x (Request x)) (body : Option (List ℕ)) (pooled : PooledConnection x)
          (e : Error Foreign) (c : Client x)
          → ((d : Client x) → P d → P (build d).1)
          → P c
          → P
              (case_connection x pooled
                (λ conn. raise {A = Response x} e)
                (λ session. retry_over_http2 x host port build body)
                c).1
      lost_kept build body (http2 conn) e c keep p = p
      lost_kept build body (http3 session) e c keep p = retry_kept build body c keep p

      pub transmit_kept :
          (build : Act x (Request x)) (body : Option (List ℕ)) (pooled : PooledConnection x)
          (c : Client x)
          → ((e : Client x) → P e → P (build e).1)
          → P c
          → P (transmit x host port build body pooled c).1
      unfolding transmit
      transmit_kept build body pooled c keep p = elim (Call-cases (build c)) [
        | inl (f, d, e) ↦ rw (transmit, e) (build_kept build c d (err f) keep p e)
        | inr (request, d, e) ↦
            let p' = build_kept build c d (ok request) keep p e in
            elim (Call-cases (send x pooled request body d.world)) [
              | inr (response, w, sent) ↦ rw (transmit, e, sent) (s.moves d w p')
              | inl (panicked, w, lost) ↦ rw (transmit, e, lost) (s.moves d w p')
              | inl (out_of_fuel, w, lost) ↦ rw (transmit, e, lost) (s.moves d w p')
              | inl (error f, w, lost) ↦
                  rw (transmit, e, lost) (lost_kept build body pooled f _ keep (s.moves d w p'))
            ]
      ]
