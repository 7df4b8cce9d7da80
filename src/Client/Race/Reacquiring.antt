-- ===== src/Client/Race/Reacquiring.antt =====
-- src/client/pool.rs: how a call alone comes back to the slot of HTTP/2 after HTTP/3 lost its request,
-- as turns of its task. It holds the lock while it sends the request again.
use quik.Base.{ℕ, String, true, false, Option, none, some, ◌≡◌, refl, subst, inl, inr}
use quik.Failure.{Error, Failure, error, panicked, out_of_fuel}
use quik.Effect.{Result, pure, attempt, continue, ◌>>=◌, ◌>>◌, case_option, Call-cases}
use quik.Externals.{Externals, call}
use quik.Keys.{pool_key}
use quik.Connector.{QuikConnection}
use quik.Response.{Response}
use quik.Client.{
  PooledConnection, http2, http3, Client, Act, case_connection, open_slot, slot, set_slot, outside,
  dial,
}
use quik.Client.Keeping.{dial-kind}
use quik.Client.Acquire.{dial_into, reacquire}
use quik.Client.Race.{
  Protocol, slot_of, h2, retrying, rechecking, redialing, resending, Origin, retry, rechecked,
  redialled, step, cancel, unless_locked,
}
use quik.Client.Race.Endings.{set_task-same}
use quik.Client.Race.Shown.{
  Site, key_2, open_slot_answers, open_slot-Shows, dial-Shows, set_2-Shows, outside-Shows,
}
use quik.Client.Race.Alone.{Alike}
use quik.Client.Race.Dials.{same_key}
use quik.Client.Race.Serving.{Serves, gives_up, by_step, by_drop}

module _ (x : Externals) (site : Site) (i : ℕ) where
  open site use {proxy, host, port, bound}

  abbrev Same : Origin → Client x → Type 0
  Same = Alike x site i

  -- What `reacquire` does with the slot.
  abbrev taken : String → Option (PooledConnection x) → Act x (PooledConnection x)
  taken k held = case_option held (dial_into x k host port false) (λ connection.
      case_connection x connection
        (λ conn.
          attempt (outside x (call Error.http2 (x.h2_ready conn.h2)))
            (λ h.
              set_slot x k (some (http2 (record conn { h2 = h })))
              >> pure (http2 (record conn { h2 = h })))
            (λ e. dial_into x k host port false))
        (λ session. dial_into x k host port false))

  through :
      (r : Result (Failure x.Foreign) (Response x) × Client x) (p : Protocol) (f : Origin → Origin)
      (o : Origin)
      → (slot_of p o).lock ≡ none
      → Serves x site i (f o) r
      → Serves x site i (unless_locked p f o) r
  through r p f o free s = rw free s

  -- What follows when the task has its connection, and the lock.
  module _ (k : PooledConnection x → Act x (Response x))
      (resends : (conn : PooledConnection x) (n : ℕ) (o : Origin) (c : Client x)
        → o.tasks i ≡ resending n
        → o.slot_3.lock ≡ none
        → Same o c
        → Serves x site i o (k conn c)) where
    redial-Serves :
        (o : Origin) (c : Client x)
        → o.tasks i ≡ redialing
        → o.slot_3.lock ≡ none
        → Same o c
        → Serves x site i o ((dial_into x (key_2 x site) host port false >>= k) c)
    unfolding dial_into step redialled cancel set_slot
    redial-Serves o c t own a = elim (Call-cases (dial x host port false c)) [
      | inl (panicked, c', e) ↦
          rw (dial_into, e)
            (by_drop x site i _ redialing o refl t (
              gives_up x site i _ c' _
                (record {
                  alike = (dial-Shows x site _ _ false c c' _ e a);
                  idle_3 = own;
                  idle_2 = refl;
                })
                (set_task-same i _ o.tasks)))
      | inl (out_of_fuel, c', e) ↦
          rw (dial_into, e)
            (by_drop x site i _ redialing o refl t (
              gives_up x site i _ c' _
                (record {
                  alike = (dial-Shows x site _ _ false c c' _ e a);
                  idle_3 = own;
                  idle_2 = refl;
                })
                (set_task-same i _ o.tasks)))
      | inl (error f, c', e) ↦
          rw (dial_into, e)
            (by_step x site i _ redialing false o t (
              gives_up x site i _ c' _
                (record {
                  alike = (dial-Shows x site _ _ false c c' _ e a);
                  idle_3 = own;
                  idle_2 = refl;
                })
                (set_task-same i _ o.tasks)))
      | inr (conn, c', e) ↦
          rw (dial_into, e)
            (by_step x site i _ redialing true o t (
              resends conn o.slot_2.dials _ _ (set_task-same i _ o.tasks) own (
                set_2-Shows x site _ _ conn c' (dial-kind x host port false c c' conn e)
                  (dial-Shows x site _ _ false c c' _ e a))))
    ]

    -- A connection that was kept is asked once more, with the lock.
    recheck-Serves :
        (n : ℕ) (conn : QuikConnection x) (o : Origin) (c : Client x)
        → o.tasks i ≡ rechecking n
        → o.slot_3.lock ≡ none
        → Same o c
        → Serves x site i o (
            continue
              (attempt
                (outside x (call Error.http2 (x.h2_ready conn.h2)))
                (λ h.
                  set_slot x (key_2 x site) (some (http2 (record conn { h2 = h })))
                  >> pure (http2 (record conn { h2 = h })))
                (λ e. dial_into x (key_2 x site) host port false)
                c)
              k)
    unfolding step rechecked cancel set_slot
    recheck-Serves n conn o c t own a =
        elim (Call-cases (outside x (call Error.http2 (x.h2_ready conn.h2)) c)) [
          | inl (panicked, c', q) ↦ rw q (
              by_drop x site i _ (rechecking n) o refl t (
                gives_up x site i _ c' _
                  (record {
                    alike =
                        (outside-Shows x site _ _ (call Error.http2 (x.h2_ready conn.h2)) c c' _ q
                          a);
                    idle_3 = own;
                    idle_2 = refl;
                  })
                  (set_task-same i _ o.tasks)))
          | inl (out_of_fuel, c', q) ↦ rw q (
              by_drop x site i _ (rechecking n) o refl t (
                gives_up x site i _ c' _
                  (record {
                    alike =
                        (outside-Shows x site _ _ (call Error.http2 (x.h2_ready conn.h2)) c c' _ q
                          a);
                    idle_3 = own;
                    idle_2 = refl;
                  })
                  (set_task-same i _ o.tasks)))
          | inl (error g, c', q) ↦ rw q (
              by_step x site i _ (rechecking n) false o t (
                redial-Serves _ c' (set_task-same i _ o.tasks) own
                  (outside-Shows x site _ _ (call Error.http2 (x.h2_ready conn.h2)) c c' _ q a)))
          | inr (h, c', q) ↦ rw q (
              by_step x site i _ (rechecking n) true o t (
                resends (http2 (record conn { h2 = h })) n _ _ (set_task-same i _ o.tasks) own (
                  set_2-Shows x site _ _ (http2 (record conn { h2 = h })) c' refl
                    (outside-Shows x site _ _ (call Error.http2 (x.h2_ready conn.h2)) c c' _ q a))))
        ]

    -- With the lock of HTTP/2 within reach, its slot as the client sees it.
    retry-Serves :
        (held : Option (PooledConnection x)) (mine : Option ℕ) (o : Origin) (c : Client x)
        → slot x (key_2 x site) c ≡ held
        → o.slot_2.held ≡ mine
        → o.slot_3.lock ≡ none
        → Same o c
        → Serves x site i (retry i mine o) ((taken (key_2 x site) held >>= k) c)
    unfolding retry
    retry-Serves none none o c e h own a = redial-Serves _ c (set_task-same i _ o.tasks) own a
    retry-Serves (some (http2 conn)) (some n) o c e h own a =
        recheck-Serves n conn _ c (set_task-same i _ o.tasks) own a
    retry-Serves (some (http3 session)) (some n) o c e h own a =
        absurd (cc (a.is_typed.typed host port false (http3 session) bound e))
    retry-Serves none (some n) o c e h own a = absurd (let q = a.shown_2 in cc)
    retry-Serves (some conn) none o c e h own a = absurd (let q = a.shown_2 in cc)

    -- If the client's pool is not poisoned, its slots hold what their keys name, the origin's slots are
    -- filled as the client's, both locks are free, and what follows is served by a task that holds the
    -- lock of HTTP/2 to send again: `reacquire` and what follows are served by a task whose request
    -- HTTP/3 lost.
    pub reacquire-Serves :
        (o : Origin) (c : Client x)
        → o.tasks i ≡ retrying
        → o.slot_3.lock ≡ none
        → o.slot_2.lock ≡ none
        → Same o c
        → Serves x site i o ((reacquire x host port >>= k) c)
    unfolding reacquire step
    reacquire-Serves o c t own free a =
        let j = pool_key c.proxy host port false in
        elim (Call-cases (open_slot x j c)) [
          | inl (f, c', e) ↦ absurd (open_slot_answers x site _ _ j c c' f e a)
          | inr (_, c', e) ↦
              rw (reacquire, e)
                (by_step x site i _ retrying true o t (
                  through _ h2 (λ o. retry i o.slot_2.held o) o free
                    (subst
                      (λ j.
                        Serves x site i (retry i o.slot_2.held o)
                          (continue (taken j (slot x j c') c') k))
                      (same_key x site i c false a.is_typed)
                      (retry-Serves _ _ o c' refl refl own
                        (open_slot-Shows x site _ _ j c c' _ e a)))))
        ]
