-- ===== src/Client/Keeping.antt =====
-- What taking a connection in src/client/pool.rs keeps true of the client: any property that its few
-- primitive steps keep.
use quik.Base.{
  ℕ, ◌<◌, zero, suc, String, Bool, true, false, Option, none, some, ◌≡◌, sym, subst, ap, inl, inr,
  Bool-cases, Option-cases,
}
use quik.Failure.{Failure, error, panicked, out_of_fuel}
use quik.Effect.{Result, ok, err, Call-cases}
use quik.Externals.{Externals}
use quik.Keys.{pool_key, origin_key}
use quik.Proxy.{Proxy}
use quik.Client.{PooledConnection, http2, http3, is_http3, Client, open_slot, slot, set_slot, dial}
use quik.Client.Slots.{dial_h3-Dials, dial_h2-Dials, IsTyped}
use quik.Client.Acquire.{evict, dial_into, fall_back_dial, dial_or_fall_back, acquire_loop, acquire}

module _ (x : Externals) where
  open x use {World, Foreign}

  pub dial-kind :
      (host : String) (port : ℕ) (h3 : Bool) (c d : Client x) (conn : PooledConnection x)
      → dial x host port h3 c ≡ (ok conn, d)
      → is_http3 x conn ≡ h3
  unfolding dial
  dial-kind host port true c d conn e =
      (dial_h3-Dials x host port c.profile c.world).kind conn (ap (λ r. r.0) e)
  dial-kind host port false c d conn e =
      (dial_h2-Dials x host port c.profile c.proxy c.world).kind conn (ap (λ r. r.0) e)

  module _ (proxy : Option Proxy) where
    -- A property of the client that taking a connection keeps.
    pub record Stable (P : Client x → Type 0) : Type 0 where
      pub typed : (c : Client x) → P c → IsTyped x proxy c
      pub opens : (c : Client x) (k : String) → P c → P (open_slot x k c).1
      pub clears : (c : Client x) (k : String) → P c → P (set_slot x k none c).1
      pub sets :
          (c : Client x) (host : String) (port : ℕ) (h3 : Bool) (conn : PooledConnection x)
          → port < 65536
          → is_http3 x conn ≡ h3
          → P c
          → P (set_slot x (pool_key proxy host port h3) (some conn) c).1
      pub evicts : (c : Client x) (origin : String) → P c → P (evict x origin c).1
      pub moves : (c : Client x) (w : World) → P c → P (record c { world = w })

    module _ (P : Client x → Type 0) (s : Stable P) (host : String) (port : ℕ)
        (bound : port < 65536) where
      pub dial_kept : (h3 : Bool) (c : Client x) → P c → P (dial x host port h3 c).1
      unfolding dial
      dial_kept true c p = s.moves c _ p
      dial_kept false c p = s.moves c _ p

      pub dialled :
          (h3 : Bool) (c d : Client x) (r : Result (Failure Foreign) (PooledConnection x))
          → P c
          → dial x host port h3 c ≡ (r, d)
          → P d
      dialled h3 c d r p e = subst P (ap (λ q. q.1) e) (dial_kept h3 c p)

      pub filled :
          (h3 : Bool) (k : String) (c : Client x) (conn : PooledConnection x)
          → k ≡ pool_key proxy host port h3
          → is_http3 x conn ≡ h3
          → P c
          → P (set_slot x k (some conn) c).1
      filled h3 k c conn q e p =
          subst (λ j. P (set_slot x j (some conn) c).1) (sym q)
            (s.sets c host port h3 conn bound e p)

      pub dial_into_kept :
          (h3 : Bool) (k : String) (c : Client x)
          → k ≡ pool_key proxy host port h3
          → P c
          → P (dial_into x k host port h3 c).1
      unfolding dial_into set_slot
      dial_into_kept h3 k c q p = elim (Call-cases (dial x host port h3 c)) [
        | inl (f, d, e) ↦ rw (dial_into, e) (dialled h3 c d (err f) p e)
        | inr (conn, d, e) ↦
            rw (dial_into, e)
              (filled h3 k d conn q (dial-kind host port h3 c d conn e)
                (dialled h3 c d (ok conn) p e))
      ]

      pub named :
          (c : Client x) (h3 : Bool)
          → P c
          → pool_key c.proxy host port h3 ≡ pool_key proxy host port h3
      named c h3 p = ap (λ z. pool_key z host port h3) (s.typed c p).same_proxy

      pub opened :
          (k : String) (c d : Client x) (r : Result (Failure Foreign) (Unit {0}))
          → P c
          → open_slot x k c ≡ (r, d)
          → P d
      opened k c d r p e = subst P (ap (λ q. q.1) e) (s.opens c k p)

      pub fall_back_dial_kept : (c : Client x) → P c → P (fall_back_dial x host port c).1
      unfolding fall_back_dial
      fall_back_dial_kept c p =
          let k = pool_key c.proxy host port false in
          elim (Call-cases (open_slot x k c)) [
            | inl (f, d, e) ↦ rw (fall_back_dial, e) (opened k c d (err f) p e)
            | inr (_, d, e) ↦
                let p' = opened k c d (ok _) p e in
                elim (Option-cases (slot x k d)) [
                  | inl new ↦
                      rw (fall_back_dial, e, new) (dial_into_kept false k d (named c false p) p')
                  | inr (conn, held) ↦ rw (fall_back_dial, e, held) p'
                ]
          ]

      dial_or_fall_back_kept :
          (h3 : Bool) (k : String) (c : Client x)
          → k ≡ pool_key proxy host port h3
          → P c
          → P (dial_or_fall_back x k host port h3 c).1
      unfolding dial_or_fall_back set_slot
      dial_or_fall_back_kept h3 k c q p = elim (Call-cases (dial x host port h3 c)) [
        | inl (panicked, d, e) ↦ rw (dial_or_fall_back, e) (dialled h3 c d (err panicked) p e)
        | inl (out_of_fuel, d, e) ↦ rw (dial_or_fall_back, e) (dialled h3 c d (err out_of_fuel) p e)
        | inl (error f, d, e) ↦
            let p' = dialled h3 c d (err (error f)) p e in
            elim (Bool-cases h3) [
              | inl fast ↦
                  rw (dial_or_fall_back, e, fast)
                    (unfold evict in fall_back_dial_kept _ (s.evicts d (origin_key host port) p'))
              | inr slow ↦ rw (dial_or_fall_back, e, slow) p'
            ]
        | inr (conn, d, e) ↦
            rw (dial_or_fall_back, e)
              (filled h3 k d conn q (dial-kind host port h3 c d conn e)
                (dialled h3 c d (ok conn) p e))
      ]

      acquire_loop_kept :
          (fuel : ℕ) (h3 : Bool) (k : String) (c : Client x)
          → k ≡ pool_key proxy host port h3
          → P c
          → P (acquire_loop x fuel k host port h3 c).1
      unfolding acquire_loop set_slot
      acquire_loop_kept zero h3 k c q p = p
      acquire_loop_kept (suc fuel) h3 k c q p = elim (Option-cases (slot x k c)) [
        | inl e ↦ rw (acquire_loop, e) (dial_or_fall_back_kept h3 k c q p)
        | inr (http3 session, e) ↦ rw (acquire_loop, e) p
        | inr (http2 conn, e) ↦ elim (Call-cases (x.h2_ready conn.h2 c.world)) [
          | inr (h2, w, ready) ↦ rw (acquire_loop, e, ready) (s.moves c w p)
          | inl (f, w, dead) ↦
              rw (acquire_loop, e, dead)
                (acquire_loop_kept fuel h3 k _ q (s.clears _ k (s.moves c w p)))
        ]
      ]

      pub acquire_kept : (h3 : Bool) (c : Client x) → P c → P (acquire x host port h3 c).1
      unfolding acquire
      acquire_kept h3 c p =
          let k = pool_key c.proxy host port h3 in
          elim (Call-cases (open_slot x k c)) [
            | inl (f, d, e) ↦ rw (acquire, e) (opened k c d (err f) p e)
            | inr (_, d, e) ↦
                rw (acquire, e)
                  (acquire_loop_kept 2 h3 k d (named c h3 p) (opened k c d (ok _) p e))
          ]
