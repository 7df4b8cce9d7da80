-- ===== src/Client/Race/Shown.antt =====
-- src/client/pool.rs: which slots of an origin the client of one call at a time has filled, and what
-- taking a connection does to that.
use quik.Base.{
  ℕ, ◌<◌, String, Bool, true, false, Option, none, some, is_some, ◌≡◌, refl, ◌∙◌, ap, subst, inl,
  inr, Bool-cases, arith, eq_iff, str_eq, eq_refl,
}
use quik.Failure.{Failure}
use quik.Effect.{Result, err, Effect}
use quik.Externals.{Externals}
use quik.Keys.{pool_key}
use quik.Keys.Injective.{pool_key-injective}
use quik.Proxy.{Proxy}
use quik.Client.{PooledConnection, is_http3, Client, open_slot, slot, set_slot, outside, dial}
use quik.Client.Slots.{
  IsTyped, slot-set_slot, slot-open_slot, set_slot-IsTyped, clear_slot-IsTyped, open_slot-IsTyped,
}
use quik.Client.Acquire.{evict}

-- An origin, and the proxy on the way to it.
pub record Site : Type 0 where
  pub proxy : Option Proxy
  pub host : String
  pub port : ℕ
  pub bound : port < 65536

module _ (x : Externals) (site : Site) where
  open x use {World, Foreign}
  open site use {proxy, host, port, bound}

  abbrev pub key_3 : String
  key_3 = pool_key proxy host port true

  abbrev pub key_2 : String
  key_2 = pool_key proxy host port false

  -- The lock of the pool is not poisoned, the slots hold what their keys name, and these two are filled
  -- or not.
  pub record Shows (filled_3 filled_2 : Bool) (c : Client x) : Type 0 where
    pub healthy : c.pool.is_poisoned ≡ false
    pub is_typed : IsTyped x proxy c
    pub shown_3 : is_some (slot x key_3 c) ≡ filled_3
    pub shown_2 : is_some (slot x key_2 c) ≡ filled_2

  keys_differ : str_eq key_3 key_2 ≡ false
  keys_differ = elim (Bool-cases (str_eq key_3 key_2)) [
    | inl same ↦
        let e : key_3 ≡ key_2 = ground (arith, eq_iff key_3 key_2) in
        let s = (pool_key-injective proxy host host port port true false bound bound e).2 in
        absurd (cc)
    | inr other ↦ other
  ]

  keys_differ_back : str_eq key_2 key_3 ≡ false
  keys_differ_back = elim (Bool-cases (str_eq key_2 key_3)) [
    | inl same ↦
        let e : key_2 ≡ key_3 = ground (arith, eq_iff key_2 key_3) in
        let s = (pool_key-injective proxy host host port port false true bound bound e).2 in
        absurd (cc)
    | inr other ↦ other
  ]

  healthy-open_slot :
      (k : String) (c : Client x)
      → c.pool.is_poisoned ≡ false
      → (open_slot x k c).1.pool.is_poisoned ≡ false
  unfolding open_slot
  healthy-open_slot k c e = rw e refl

  pub open_slot_answers :
      (a b : Bool) (k : String) (c d : Client x) (f : Failure Foreign)
      → open_slot x k c ≡ (err f, d)
      → Shows a b c
      → ⊥
  unfolding open_slot
  open_slot_answers a b k c d f e s = cc (rw s.healthy at e)

  pub open_slot-Shows :
      (a b : Bool) (k : String) (c d : Client x) (r : Result (Failure Foreign) (Unit {0}))
      → open_slot x k c ≡ (r, d)
      → Shows a b c
      → Shows a b d
  open_slot-Shows a b k c d r e s = subst (Shows a b) (ap (λ q. q.1) e) (record {
    healthy = healthy-open_slot k c s.healthy;
    is_typed = open_slot-IsTyped x proxy c k s.is_typed;
    shown_3 = ap is_some (slot-open_slot x k key_3 c) ∙ s.shown_3;
    shown_2 = ap is_some (slot-open_slot x k key_2 c) ∙ s.shown_2;
  })

  pub evict-Shows :
      (a b : Bool) (origin : String) (c : Client x) → Shows a b c → Shows a b (evict x origin c).1
  unfolding evict slot
  evict-Shows a b origin c s = record {
    healthy = s.healthy;
    is_typed = record { same_proxy = s.is_typed.same_proxy; typed = s.is_typed.typed };
    shown_3 = s.shown_3;
    shown_2 = s.shown_2;
  }

  moved-Shows :
      (a b : Bool) (c : Client x) (w : World) → Shows a b c → Shows a b (record c { world = w })
  unfolding slot
  moved-Shows a b c w s = record {
    healthy = s.healthy;
    is_typed = record { same_proxy = s.is_typed.same_proxy; typed = s.is_typed.typed };
    shown_3 = s.shown_3;
    shown_2 = s.shown_2;
  }

  pub dial-Shows :
      (a b h3 : Bool) (c d : Client x) (r : Result (Failure Foreign) (PooledConnection x))
      → dial x host port h3 c ≡ (r, d)
      → Shows a b c
      → Shows a b d
  unfolding dial
  dial-Shows a b true c d r e s = subst (Shows a b) (ap (λ q. q.1) e) (moved-Shows a b c _ s)
  dial-Shows a b false c d r e s = subst (Shows a b) (ap (λ q. q.1) e) (moved-Shows a b c _ s)

  pub set_3-Shows :
      (a b : Bool) (conn : PooledConnection x) (c : Client x)
      → is_http3 x conn ≡ true
      → Shows a b c
      → Shows true b (set_slot x key_3 (some conn) c).1
  set_3-Shows a b conn c e s = record {
    healthy = unfold set_slot in s.healthy;
    is_typed = set_slot-IsTyped x proxy c host port true conn bound e s.is_typed;
    shown_3 = ap is_some (slot-set_slot x key_3 key_3 (some conn) c) ∙ rw (eq_refl key_3) refl;
    shown_2 = ap is_some (slot-set_slot x key_3 key_2 (some conn) c) ∙ rw keys_differ s.shown_2;
  }

  pub set_2-Shows :
      (a b : Bool) (conn : PooledConnection x) (c : Client x)
      → is_http3 x conn ≡ false
      → Shows a b c
      → Shows a true (set_slot x key_2 (some conn) c).1
  set_2-Shows a b conn c e s = record {
    healthy = unfold set_slot in s.healthy;
    is_typed = set_slot-IsTyped x proxy c host port false conn bound e s.is_typed;
    shown_3 =
        ap is_some (slot-set_slot x key_2 key_3 (some conn) c) ∙ rw keys_differ_back s.shown_3;
    shown_2 = ap is_some (slot-set_slot x key_2 key_2 (some conn) c) ∙ rw (eq_refl key_2) refl;
  }

  pub clear_2-Shows :
      (a b : Bool) (c : Client x) → Shows a b c → Shows a false (set_slot x key_2 none c).1
  clear_2-Shows a b c s = record {
    healthy = unfold set_slot in s.healthy;
    is_typed = clear_slot-IsTyped x proxy c key_2 s.is_typed;
    shown_3 = ap is_some (slot-set_slot x key_2 key_3 none c) ∙ rw keys_differ_back s.shown_3;
    shown_2 = ap is_some (slot-set_slot x key_2 key_2 none c) ∙ rw (eq_refl key_2) refl;
  }

  pub outside-Shows :
      {A : Type 0} (a b : Bool) (m : Effect World Foreign A) (c d : Client x)
      (r : Result (Failure Foreign) A)
      → outside x m c ≡ (r, d)
      → Shows a b c
      → Shows a b d
  outside-Shows a b m c d r e s = subst (Shows a b) (ap (λ q. q.1) e) (moved-Shows a b c _ s)
