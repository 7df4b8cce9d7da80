-- ===== src/Client/Fallback.antt =====
-- The fallback from HTTP/3 to HTTP/2 of src/client/pool.rs: what taking a connection does to the
-- slots and to the Alt-Svc cache.
use quik.Base.{
  List, ℕ, ◌<◌, zero, suc, String, Bool, true, false, Option, none, some, ◌≡◌, refl, subst, ap, ◌∙◌,
  inl, inr, Bool-cases, Option-cases, arith, eq_refl,
}
use quik.Failure.{error, panicked, out_of_fuel}
use quik.Effect.{ok, err, Call-cases}
use quik.Externals.{Externals}
use quik.Keys.{pool_key, origin_key}
use quik.AltSvc
use quik.AltSvc.Laws.{get-remove}
use quik.Proxy.{Proxy}
use quik.Response.{Request}
use quik.Client.{
  PooledConnection, http2, http3, is_http3, Client, Act, open_slot, slot, set_slot, dial,
}
use quik.Client.Slots.{IsTyped, set_slot-IsTyped, clear_slot-IsTyped, open_slot-IsTyped}
use quik.Client.Acquire.{evict, dial_or_fall_back, acquire_loop, acquire, transmit}
use quik.Client.Keeping.{Stable, dial-kind, dialled, opened, fall_back_dial_kept, acquire_kept}
use quik.Client.Resending.{transmit_kept}

module _ (x : Externals) where
  open x use {World, Foreign}

  module _ (proxy : Option Proxy) where
    HasNoAdvert : String → Client x → Type 0
    HasNoAdvert origin c = IsTyped x proxy c × (AltSvc.get c.alt_svc_cache origin ≡ none)

    pub IsTyped-Stable : Stable x proxy (IsTyped x proxy)
    unfolding evict slot
    IsTyped-Stable = record {
      typed = λ c p. p;
      opens = λ c k p. open_slot-IsTyped x proxy c k p;
      clears = λ c k p. clear_slot-IsTyped x proxy c k p;
      sets = λ c host port h3 conn b e p. set_slot-IsTyped x proxy c host port h3 conn b e p;
      evicts = λ c o p. record { same_proxy = p.same_proxy; typed = p.typed };
      moves = λ c w p. record { same_proxy = p.same_proxy; typed = p.typed };
    }

    -- If every slot of the pool holds a connection of the protocol that its key names, or none, and
    -- the port is a u16, then that is so after a connection was taken, whatever was dialled, lost or
    -- fallen back to.
    pub acquire-IsTyped :
        (host : String) (port : ℕ) (h3 : Bool) (c : Client x)
        → port < 65536
        → IsTyped x proxy c
        → IsTyped x proxy (acquire x host port h3 c).1
    acquire-IsTyped host port h3 c b p =
        acquire_kept x proxy (IsTyped x proxy) IsTyped-Stable host port b h3 c p

    -- If every slot of the pool holds a connection of the protocol that its key names, or none, the
    -- port is a u16 and making a request keeps the slots so, then that is so after a request was
    -- sent over any connection, also when HTTP/3 lost it and it was sent again over HTTP/2.
    pub transmit-IsTyped :
        (host : String) (port : ℕ) (build : Act x (Request x)) (body : Option (List ℕ))
        (pooled : PooledConnection x) (c : Client x)
        → port < 65536
        → ((d : Client x) → IsTyped x proxy d → IsTyped x proxy (build d).1)
        → IsTyped x proxy c
        → IsTyped x proxy (transmit x host port build body pooled c).1
    transmit-IsTyped host port build body pooled c b keep p =
        transmit_kept x proxy (IsTyped x proxy) IsTyped-Stable host port b build body pooled c keep
          p

    alt-open_slot :
        (k : String) (c : Client x) → (open_slot x k c).1.alt_svc_cache ≡ c.alt_svc_cache
    unfolding open_slot
    alt-open_slot k c = elim (Bool-cases c.pool.is_poisoned) [
      | inl e ↦ rw e refl
      | inr e ↦ rw e refl
    ]

    HasNoAdvert-Stable : (origin : String) → Stable x proxy (HasNoAdvert origin)
    unfolding evict slot HasNoAdvert set_slot
    HasNoAdvert-Stable origin =
        let t = IsTyped-Stable in
        record {
          typed = λ c p. p.0;
          opens =
              λ c k p. (t.opens c k p.0, ap (λ a. AltSvc.get a origin) (alt-open_slot k c) ∙ p.1);
          clears = λ c k p. (t.clears c k p.0, p.1);
          sets = λ c host port h3 conn b e p. (t.sets c host port h3 conn b e p.0, p.1);
          evicts =
              λ c o p. (t.evicts c o p.0, ground (arith, get-remove c.alt_svc_cache o origin, p.1));
          moves = λ c w p. (t.moves c w p.0, p.1);
        }

    evicted :
        (origin : String) (c : Client x)
        → IsTyped x proxy c
        → HasNoAdvert origin (evict x origin c).1
    unfolding evict HasNoAdvert
    evicted origin c p = (
      IsTyped-Stable.evicts c origin p,
      ground (arith, get-remove c.alt_svc_cache origin origin, eq_refl origin),
    )

    module _ (host : String) (port : ℕ) (bound : port < 65536) where
      dial_or_fall_back_gone :
          (k : String) (c d : Client x) (conn : PooledConnection x)
          → IsTyped x proxy c
          → dial_or_fall_back x k host port true c ≡ (ok conn, d)
          → is_http3 x conn ≡ false
          → AltSvc.get d.alt_svc_cache (origin_key host port) ≡ none
      unfolding dial_or_fall_back HasNoAdvert set_slot evict
      dial_or_fall_back_gone k c d conn p q slow = elim (Call-cases (dial x host port true c)) [
        | inl (panicked, c', e) ↦ absurd (cc (rw (dial_or_fall_back, e) at q))
        | inl (out_of_fuel, c', e) ↦ absurd (cc (rw (dial_or_fall_back, e) at q))
        | inl (error f, c', e) ↦
            let p' =
              dialled x proxy (IsTyped x proxy) IsTyped-Stable host port bound true c c'
                (err (error f)) p e in
            let origin = origin_key host port in
            let gone =
              fall_back_dial_kept x proxy (HasNoAdvert origin) (HasNoAdvert-Stable origin) host port
                bound _ (evicted origin c' p') in
            subst (λ z. AltSvc.get z.alt_svc_cache origin ≡ none)
              (ap (λ r. r.1) (rw (dial_or_fall_back, e) at q)) gone.1
        | inr (conn', c', e) ↦
            absurd
              (cc (dial-kind x host port true c c' conn' e, rw (dial_or_fall_back, e) at q, slow))
      ]

      acquire_loop_gone :
          (fuel : ℕ) (k : String) (c d : Client x) (conn : PooledConnection x)
          → k ≡ pool_key proxy host port true
          → IsTyped x proxy c
          → acquire_loop x fuel k host port true c ≡ (ok conn, d)
          → is_http3 x conn ≡ false
          → AltSvc.get d.alt_svc_cache (origin_key host port) ≡ none
      unfolding acquire_loop
      acquire_loop_gone zero k c d conn named p q slow = absurd (cc)
      acquire_loop_gone (suc fuel) k c d conn named p q slow = elim (Option-cases (slot x k c)) [
        | inl e ↦ dial_or_fall_back_gone k c d conn p (rw (acquire_loop, e) at q) slow
        | inr (http3 session, e) ↦ absurd (cc (rw (acquire_loop, e) at q))
        | inr (http2 held, e) ↦ absurd (
            cc (
              p.typed host port true (http2 held) bound
                (subst (λ j. slot x j c ≡ some (http2 held)) named e)))
      ]

      -- If every slot of the pool holds a connection of the protocol that its key names, or none, the
      -- port is a u16, and a connection that is taken for HTTP/3 is one over HTTP/2, then the
      -- advertisement of that origin is gone from the Alt-Svc cache.
      pub acquire-evicts :
          (c d : Client x) (conn : PooledConnection x)
          → IsTyped x proxy c
          → acquire x host port true c ≡ (ok conn, d)
          → is_http3 x conn ≡ false
          → AltSvc.get d.alt_svc_cache (origin_key host port) ≡ none
      unfolding acquire
      acquire-evicts c d conn p q slow =
          let k = pool_key c.proxy host port true in
          let named : k ≡ pool_key proxy host port true =
            ap (λ z. pool_key z host port true) p.same_proxy in
          elim (Call-cases (open_slot x k c)) [
            | inl (f, c', e) ↦ absurd (cc (rw (acquire, e) at q))
            | inr (_, c', e) ↦
                acquire_loop_gone 2 k c' d conn named
                  (opened x proxy (IsTyped x proxy) IsTyped-Stable host port bound k c c' (ok _) p
                    e)
                  (rw (acquire, e) at q) slow
          ]
