-- ===== src/Client/Slots.antt =====
-- What the slots of the connection pool of src/client/pool.rs hold: only connections of the protocol
-- that their key names.
use quik.Base.{
  ℕ, ◌<◌, String, Bool, true, false, Option, none, some, List, if◌then◌else◌, ◌≡◌, refl, sym, subst,
  ◌∙◌, inl, inr, Bool-cases, Option-cases, arith, lookup, lookup-insert, eq_iff, str_eq, unwrap_or,
}
use quik.Failure.{Failure}
use quik.Effect.{Result, ok, err, Effect, pure, continue}
use quik.Externals.{Externals}
use quik.Keys.{pool_key}
use quik.Keys.Injective.{pool_key-injective}
use quik.Profile.{ChromeProfile}
use quik.Profile.Draw.{Draw}
use quik.Proxy.{Proxy}
use quik.Client.{
  ClientBuilder, build, PooledConnection, is_http3, Client, entry, open_slot, slot, set_slot,
  dial_h2, dial_h3,
}

module _ (x : Externals) where
  open x use {World, Foreign}

  -- What a run that dials can answer.
  pub record Dials {S : Type 0} (h3 : Bool) (r : Result (Failure Foreign) (PooledConnection x) × S)
      : Type 0 where
    pub kind : (conn : PooledConnection x) → r.0 ≡ ok conn → is_http3 x conn ≡ h3

  Dials-continue :
      {S A : Type 0} (h3 : Bool) (r : Result (Failure Foreign) A × S)
      (f : A → Effect S Foreign (PooledConnection x))
      → ((a : A) (s : S) → Dials h3 (f a s))
      → Dials h3 (continue r f)
  Dials-continue h3 (ok a, s) f k = k a s
  Dials-continue h3 (err e, s) f k = record { kind = λ conn q. cc }

  Dials-pure :
      {S : Type 0} (h3 : Bool) (conn : PooledConnection x) (s : S)
      → is_http3 x conn ≡ h3
      → Dials h3 (pure conn s)
  Dials-pure h3 conn s e = record { kind = λ conn' q. cc }

  pub dial_h3-Dials :
      (host : String) (port : ℕ) (p : ChromeProfile) (w : World)
      → Dials true (dial_h3 x host port p w)
  unfolding dial_h3
  dial_h3-Dials host port p w = search (Dials-continue, Dials-pure) depth 40

  pub dial_h2-Dials :
      (host : String) (port : ℕ) (p : ChromeProfile) (proxy : Option Proxy) (w : World)
      → Dials false (dial_h2 x host port p proxy w)
  unfolding dial_h2
  dial_h2-Dials host port p proxy w = search (Dials-continue, Dials-pure) depth 40

  pub slot-set_slot :
      (k j : String) (v : Option (PooledConnection x)) (c : Client x)
      → slot x j (set_slot x k v c).1 ≡ (if str_eq k j then v else slot x j c)
  unfolding set_slot slot
  slot-set_slot k j v c = elim (Bool-cases (str_eq k j)) [
    | inl same ↦ rw (lookup-insert, same) refl
    | inr other ↦ rw (lookup-insert, other) refl
  ]

  slot-entry :
      (k j : String) (pool : List (String × Option (PooledConnection x)))
      → unwrap_or (lookup j (entry x k pool)) none ≡ unwrap_or (lookup j pool) none
  slot-entry k j pool = elim (Option-cases (lookup k pool)) [
    | inl new ↦ elim (Bool-cases (str_eq k j)) [
      | inl same ↦
          let here : k ≡ j = ground (arith, eq_iff k j) in
          let absent : lookup j pool ≡ none = subst (λ i. lookup i pool ≡ none) here new in
          rw (entry, new, lookup-insert, same) (rw absent refl)
      | inr other ↦ rw (entry, new, lookup-insert, other) refl
    ]
    | inr (held, old) ↦ rw (entry, old) refl
  ]

  pub slot-open_slot : (k j : String) (c : Client x) → slot x j (open_slot x k c).1 ≡ slot x j c
  unfolding open_slot slot
  slot-open_slot k j c = elim (Bool-cases c.pool.is_poisoned) [
    | inl e ↦ rw e refl
    | inr e ↦ rw e (slot-entry k j c.pool.value)
  ]

  proxy-open_slot : (k : String) (c : Client x) → (open_slot x k c).1.proxy ≡ c.proxy
  unfolding open_slot
  proxy-open_slot k c = elim (Bool-cases c.pool.is_poisoned) [
    | inl e ↦ rw e refl
    | inr e ↦ rw e refl
  ]

  module _ (proxy : Option Proxy) where
    -- A client with this proxy each of whose slots is empty or holds a connection of the protocol
    -- that the slot's key names.
    pub record IsTyped (c : Client x) : Type 0 where
      pub same_proxy : c.proxy ≡ proxy
      pub typed :
          (host : String) (port : ℕ) (h3 : Bool) (conn : PooledConnection x)
          → port < 65536
          → slot x (pool_key proxy host port h3) c ≡ some conn
          → is_http3 x conn ≡ h3

    pub set_slot-IsTyped :
        (c : Client x) (host : String) (port : ℕ) (h3 : Bool) (conn : PooledConnection x)
        → port < 65536
        → is_http3 x conn ≡ h3
        → IsTyped c
        → IsTyped (set_slot x (pool_key proxy host port h3) (some conn) c).1
    set_slot-IsTyped c host port h3 conn p e t = record {
      same_proxy = unfold set_slot in t.same_proxy;
      typed = λ host' port' h3' conn' q f.
          let g =
            sym (
              slot-set_slot (pool_key proxy host port h3) (pool_key proxy host' port' h3')
                (some conn) c)
            ∙ f in
          elim (Bool-cases
            (str_eq (pool_key proxy host port h3) (pool_key proxy host' port' h3'))) [
              | inl same ↦ ground (
                arith,
                rw same at g,
                eq_iff (pool_key proxy host port h3) (pool_key proxy host' port' h3'),
                pool_key-injective proxy host host' port port' h3 h3' p q,
              )
              | inr other ↦ t.typed host' port' h3' conn' q (rw other at g)
            ];
    }

    pub clear_slot-IsTyped :
        (c : Client x) (k : String) → IsTyped c → IsTyped (set_slot x k none c).1
    clear_slot-IsTyped c k t = record {
      same_proxy = unfold set_slot in t.same_proxy;
      typed = λ host port h3 conn q f.
          let g = sym (slot-set_slot k (pool_key proxy host port h3) none c) ∙ f in
          elim (Bool-cases (str_eq k (pool_key proxy host port h3))) [
            | inl same ↦ absurd (cc (rw same at g))
            | inr other ↦ t.typed host port h3 conn q (rw other at g)
          ];
    }

    pub open_slot-IsTyped : (c : Client x) (k : String) → IsTyped c → IsTyped (open_slot x k c).1
    open_slot-IsTyped c k t = record {
      same_proxy = proxy-open_slot k c ∙ t.same_proxy;
      typed = λ host port h3 conn q f.
          t.typed host port h3 conn q (sym (slot-open_slot k (pool_key proxy host port h3) c) ∙ f);
    }

    -- A client that was just built has typed slots.
    pub build-IsTyped :
        (draw : Draw) (target_os : String) (jar : x.CookieStore) (w : World)
        (builder : ClientBuilder x)
        → builder.proxy ≡ proxy
        → IsTyped (build x draw target_os jar w builder)
    unfolding build slot lookup
    build-IsTyped draw target_os jar w builder e = record {
      same_proxy = e;
      typed = λ host port h3 conn q f. absurd (cc f);
    }
