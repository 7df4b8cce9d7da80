-- ===== src/Client/Race/Acquiring.antt =====
-- src/client/pool.rs: the loop of a call alone that takes a connection, as turns of its task.
use quik.Base.{
  ℕ, suc, Bool, true, false, Option, none, some, is_some, ◌≡◌, refl, sym, subst, inl, inr,
  Option-cases,
}
use quik.Failure.{Error, Failure, error, panicked, out_of_fuel}
use quik.Effect.{Result, pure, Call-cases}
use quik.Externals.{Externals, call}
use quik.Keys.{pool_key}
use quik.Connector.{QuikConnection}
use quik.Quic.{QuicSession}
use quik.Client.{PooledConnection, http2, http3, Client, open_slot, slot, set_slot, outside}
use quik.Client.Acquire.{acquire_loop, acquire}
use quik.Client.Race.{
  Protocol, h3, h2, peeking, checking, clearing, done, failed, Origin, goes, peek, clear, step,
  cancel,
}
use quik.Client.Race.Endings.{set_task-same}
use quik.Client.Race.Shown.{
  Site, key_3, key_2, open_slot_answers, open_slot-Shows, clear_2-Shows, outside-Shows,
}
use quik.Client.Race.Alone.{IsRun, Alike, by_step, by_drop, through, stops}
use quik.Client.Race.Dials.{same_key}
use quik.Client.Race.Peeking.{empty_3-IsRun, empty_2-IsRun}

-- Whether the Alt-Svc cache has an entry for the origin.
abbrev pub advertised : Protocol → Bool
advertised h3 = true
advertised h2 = false

module _ (x : Externals) (site : Site) (i : ℕ) where
  open site use {proxy, host, port, bound}

  abbrev Run : Origin → Result (Failure x.Foreign) (PooledConnection x) × Client x → Type 0
  Run = IsRun x site i

  abbrev Same : Origin → Client x → Type 0
  Same = Alike x site i

  -- A task that finds a connection of HTTP/3.
  filled_3-IsRun :
      (n : ℕ) (session : QuicSession x) (o : Origin) (c : Client x)
      → o.tasks i ≡ peeking h3
      → o.slot_3.held ≡ some n
      → o.slot_3.lock ≡ none
      → o.slot_2.lock ≡ none
      → Same o c
      → Run o (pure (http3 session) c)
  unfolding step peek
  filled_3-IsRun n session o c t e own free a = by_step x site i _ (peeking h3) true o t (
      through x site i _ h3 (λ o. peek h3 i o.slot_3.held o) o own
        (subst (λ m. Run (peek h3 i m o) (pure (http3 session) c)) (sym e)
          (stops x site i _ _ a own free (n, set_task-same i _ o.tasks))))

  filled : {A : Type 0} (o : Option A) → is_some o ≡ true → (a : A) × (o ≡ some a)
  filled none e = absurd (cc)
  filled (some a) e = (a, refl)

  unfilled : {A : Type 0} (o : Option A) → is_some o ≡ false → o ≡ none
  unfilled none e = refl
  unfilled (some a) e = absurd (cc)

  loop_3-IsRun :
      (fuel : ℕ) (o : Origin) (c : Client x)
      → o.tasks i ≡ peeking h3
      → o.slot_3.lock ≡ none
      → o.slot_2.lock ≡ none
      → Same o c
      → Run o (acquire_loop x (suc fuel) (key_3 x site) host port true c)
  unfolding acquire_loop
  loop_3-IsRun fuel o c t own free a = elim (Option-cases (slot x (key_3 x site) c)) [
    | inl e ↦
        rw (acquire_loop, e)
          (empty_3-IsRun x site i o c t (unfilled o.slot_3.held (let q = a.shown_3 in cc)) own free
            a)
    | inr (http3 session, e) ↦
        let (n, held) = filled o.slot_3.held (let q = a.shown_3 in cc) in
        rw (acquire_loop, e) (filled_3-IsRun n session o c t held own free a)
    | inr (http2 conn, e) ↦ absurd (cc (a.is_typed.typed host port true (http2 conn) bound e))
  ]

  -- A task that found its connection of HTTP/2 lost.
  lost_2-IsRun :
      (fuel : ℕ) (o : Origin) (c : Client x)
      → o.tasks i ≡ clearing
      → o.slot_3.lock ≡ none
      → o.slot_2.lock ≡ none
      → Same o c
      → Run o (
          acquire_loop x
            (suc fuel)
            (key_2 x site)
            host
            port
            false
            (set_slot x (key_2 x site) none c).1)
  unfolding acquire_loop step clear
  lost_2-IsRun fuel o c t own free a =
      let c' = (set_slot x (key_2 x site) none c).1 in
      let a' = clear_2-Shows x site _ _ c a in
      let e : slot x (key_2 x site) c' ≡ none = unfilled _ a'.shown_2 in
      by_step x site i _ clearing true o t (
        through x site i _ h2 (clear i) o free (
          rw (acquire_loop, e)
            (empty_2-IsRun x site i (clear i o) c' (set_task-same i _ o.tasks) refl own free a')))

  -- A task that finds a connection of HTTP/2.
  filled_2-IsRun :
      (fuel n : ℕ) (conn : QuikConnection x) (o : Origin) (c : Client x)
      → o.tasks i ≡ peeking h2
      → slot x (key_2 x site) c ≡ some (http2 conn)
      → o.slot_2.held ≡ some n
      → o.slot_3.lock ≡ none
      → o.slot_2.lock ≡ none
      → Same o c
      → Run o (acquire_loop x (suc (suc fuel)) (key_2 x site) host port false c)
  unfolding acquire_loop step peek cancel set_slot
  filled_2-IsRun fuel n conn o c t f e own free a =
      let r = acquire_loop x (suc (suc fuel)) (key_2 x site) host port false c in
      by_step x site i _ (peeking h2) true o t (
        through x site i _ h2 (λ o. peek h2 i o.slot_2.held o) o free
          (subst (λ m. Run (peek h2 i m o) r) (sym e)
            (elim (Call-cases (outside x (call Error.http2 (x.h2_ready conn.h2)) c)) [
              | inl (panicked, c', q) ↦
                  rw (acquire_loop, f, q)
                    (by_drop x site i _ (checking n) _ refl (set_task-same i _ o.tasks) (
                      stops x site i _ _
                        (outside-Shows x site _ _ (call Error.http2 (x.h2_ready conn.h2)) c c' _ q
                          a)
                        own free (set_task-same i failed (goes i (checking n) o).tasks)))
              | inl (out_of_fuel, c', q) ↦
                  rw (acquire_loop, f, q)
                    (by_drop x site i _ (checking n) _ refl (set_task-same i _ o.tasks) (
                      stops x site i _ _
                        (outside-Shows x site _ _ (call Error.http2 (x.h2_ready conn.h2)) c c' _ q
                          a)
                        own free (set_task-same i failed (goes i (checking n) o).tasks)))
              | inl (error g, c', q) ↦
                  rw (acquire_loop, f, q)
                    (by_step x site i _ (checking n) false _ (set_task-same i _ o.tasks) (
                      lost_2-IsRun fuel _ c'
                        (set_task-same i clearing (goes i (checking n) o).tasks) own free
                        (outside-Shows x site _ _ (call Error.http2 (x.h2_ready conn.h2)) c c' _ q
                          a)))
              | inr (h, c', q) ↦
                  rw (acquire_loop, f, q)
                    (by_step x site i _ (checking n) true _ (set_task-same i _ o.tasks) (
                      stops x site i _ _
                        (outside-Shows x site _ _ (call Error.http2 (x.h2_ready conn.h2)) c c' _ q
                          a)
                        own free (n, set_task-same i (done h2 n) (goes i (checking n) o).tasks)))
            ])))

  loop_2-IsRun :
      (fuel : ℕ) (o : Origin) (c : Client x)
      → o.tasks i ≡ peeking h2
      → o.slot_3.lock ≡ none
      → o.slot_2.lock ≡ none
      → Same o c
      → Run o (acquire_loop x (suc (suc fuel)) (key_2 x site) host port false c)
  unfolding acquire_loop
  loop_2-IsRun fuel o c t own free a = elim (Option-cases (slot x (key_2 x site) c)) [
    | inl e ↦
        rw (acquire_loop, e)
          (empty_2-IsRun x site i o c t (unfilled o.slot_2.held (let q = a.shown_2 in cc)) own free
            a)
    | inr (http2 conn, e) ↦
        let (n, held) = filled o.slot_2.held (let q = a.shown_2 in cc) in
        filled_2-IsRun fuel n conn o c t e held own free a
    | inr (http3 session, e) ↦
        absurd (cc (a.is_typed.typed host port false (http3 session) bound e))
  ]

  loop-IsRun :
      (p : Protocol) (o : Origin) (c : Client x)
      → o.tasks i ≡ peeking p
      → o.slot_3.lock ≡ none
      → o.slot_2.lock ≡ none
      → Same o c
      → Run o
          (acquire_loop x 2 (pool_key proxy host port (advertised p)) host port (advertised p) c)
  loop-IsRun h3 o c t own free a = loop_3-IsRun 1 o c t own free a
  loop-IsRun h2 o c t own free a = loop_2-IsRun 0 o c t own free a

  -- Where the port is a u16, both locks of the origin are free, the client's pool is not poisoned,
  -- each of its slots holds a connection of the protocol that its key names, or none, and the
  -- origin's slots are filled as the client's: what `acquire` does in the model of one call at a time
  -- is a run of a task that is about to look at its slot. By turns of this task alone, in which it is
  -- dropped only if `acquire` panics or runs out of fuel, it comes to `done` with a connection of
  -- HTTP/2 if `acquire` answers one, to `sending` if it answers one of HTTP/3, and to `failed` if it
  -- fails; both locks are free then, and the slots are filled as the client's are afterwards.
  pub acquire-IsRun :
      (p : Protocol) (o : Origin) (c : Client x)
      → o.tasks i ≡ peeking p
      → o.slot_3.lock ≡ none
      → o.slot_2.lock ≡ none
      → Same o c
      → Run o (acquire x host port (advertised p) c)
  unfolding acquire cancel
  acquire-IsRun p o c t own free a =
      let k = pool_key c.proxy host port (advertised p) in
      elim (Call-cases (open_slot x k c)) [
        | inl (f, c', e) ↦ absurd (open_slot_answers x site _ _ k c c' f e a)
        | inr (_, c', e) ↦
            rw (acquire, e)
              (subst (λ k. Run o (acquire_loop x 2 k host port (advertised p) c'))
                (same_key x site i c (advertised p) a.is_typed)
                (loop-IsRun p o c' t own free (open_slot-Shows x site _ _ k c c' _ e a)))
      ]
