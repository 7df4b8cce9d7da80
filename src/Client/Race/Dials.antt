-- ===== src/Client/Race/Dials.antt =====
-- src/client/pool.rs: the dials of a call alone, and its fallback, as turns of its task.
use quik.Base.{
  ℕ, String, Bool, true, false, Option, none, some, ◌≡◌, refl, sym, subst, ap, inl, inr,
}
use quik.Failure.{Failure, error, panicked, out_of_fuel}
use quik.Effect.{Result, pure, case_option, Call-cases}
use quik.Externals.{Externals}
use quik.Keys.{pool_key, origin_key}
use quik.Client.{PooledConnection, Client, open_slot, slot, set_slot, dial}
use quik.Client.Slots.{IsTyped}
use quik.Client.Keeping.{dial-kind}
use quik.Client.Acquire.{evict, dial_into, fall_back_dial, dial_or_fall_back}
use quik.Client.Race.{
  h3, h2, dialing, crossing, dialing_under_both, Origin, dialled, cross, dialled_under_both, step,
  cancel,
}
use quik.Client.Race.Endings.{set_task-same}
use quik.Client.Race.Shown.{
  Site, key_3, key_2, open_slot_answers, open_slot-Shows, evict-Shows, dial-Shows, set_3-Shows,
  set_2-Shows,
}
use quik.Client.Race.Alone.{outcome_2, outcome_3, IsRun, Alike, by_step, by_drop, through, stops}

module _ (x : Externals) (site : Site) (i : ℕ) where
  open site use {proxy, host, port, bound}

  abbrev Run : Origin → Result (Failure x.Foreign) (PooledConnection x) × Client x → Type 0
  Run = IsRun x site i

  abbrev Same : Origin → Client x → Type 0
  Same = Alike x site i

  -- A dial for HTTP/2 with its lock.
  pub dial_into_2-IsRun :
      (o : Origin) (c : Client x)
      → o.tasks i ≡ dialing h2
      → o.slot_3.lock ≡ none
      → Same o c
      → Run o (dial_into x (key_2 x site) host port false c)
  unfolding dial_into step dialled cancel set_slot
  dial_into_2-IsRun o c t own a = elim (Call-cases (dial x host port false c)) [
    | inl (panicked, c', e) ↦
        rw (dial_into, e)
          (by_drop x site i _ (dialing h2) o refl t (
            stops x site i _ _ (dial-Shows x site _ _ false c c' _ e a) own refl
              (set_task-same i _ o.tasks)))
    | inl (out_of_fuel, c', e) ↦
        rw (dial_into, e)
          (by_drop x site i _ (dialing h2) o refl t (
            stops x site i _ _ (dial-Shows x site _ _ false c c' _ e a) own refl
              (set_task-same i _ o.tasks)))
    | inl (error f, c', e) ↦
        rw (dial_into, e)
          (by_step x site i _ (dialing h2) false o t (
            stops x site i _ _ (dial-Shows x site _ _ false c c' _ e a) own refl
              (set_task-same i _ o.tasks)))
    | inr (conn, c', e) ↦
        let kind = dial-kind x host port false c c' conn e in
        rw (dial_into, e)
          (by_step x site i _ (dialing h2) true o t (
            stops x site i _ _
              (set_2-Shows x site _ _ conn c' kind (dial-Shows x site _ _ false c c' _ e a)) own
              refl (outcome_2 x conn _ o.slot_2.dials kind (set_task-same i _ o.tasks))))
  ]

  dial_or_fall_back-dial_into :
      (k : String) (c : Client x)
      → dial_into x k host port false c ≡ dial_or_fall_back x k host port false c
  unfolding dial_or_fall_back dial_into
  dial_or_fall_back-dial_into k c = elim (Call-cases (dial x host port false c)) [
    | inl (panicked, c', e) ↦ rw (dial_or_fall_back, dial_into, e) refl
    | inl (out_of_fuel, c', e) ↦ rw (dial_or_fall_back, dial_into, e) refl
    | inl (error f, c', e) ↦ rw (dial_or_fall_back, dial_into, e) refl
    | inr (conn, c', e) ↦ rw (dial_or_fall_back, dial_into, e) refl
  ]

  pub dial_2-IsRun :
      (o : Origin) (c : Client x)
      → o.tasks i ≡ dialing h2
      → o.slot_3.lock ≡ none
      → Same o c
      → Run o (dial_or_fall_back x (key_2 x site) host port false c)
  dial_2-IsRun o c t own a =
      subst (Run o) (dial_or_fall_back-dial_into (key_2 x site) c) (dial_into_2-IsRun o c t own a)

  -- A dial for HTTP/2 with both locks.
  dial_under_both-IsRun :
      (o : Origin) (c : Client x)
      → o.tasks i ≡ dialing_under_both
      → Same o c
      → Run o (dial_into x (key_2 x site) host port false c)
  unfolding dial_into step dialled_under_both cancel set_slot
  dial_under_both-IsRun o c t a = elim (Call-cases (dial x host port false c)) [
    | inl (panicked, c', e) ↦
        rw (dial_into, e)
          (by_drop x site i _ dialing_under_both o refl t (
            stops x site i _ _ (dial-Shows x site _ _ false c c' _ e a) refl refl
              (set_task-same i _ o.tasks)))
    | inl (out_of_fuel, c', e) ↦
        rw (dial_into, e)
          (by_drop x site i _ dialing_under_both o refl t (
            stops x site i _ _ (dial-Shows x site _ _ false c c' _ e a) refl refl
              (set_task-same i _ o.tasks)))
    | inl (error f, c', e) ↦
        rw (dial_into, e)
          (by_step x site i _ dialing_under_both false o t (
            stops x site i _ _ (dial-Shows x site _ _ false c c' _ e a) refl refl
              (set_task-same i _ o.tasks)))
    | inr (conn, c', e) ↦
        let kind = dial-kind x host port false c c' conn e in
        rw (dial_into, e)
          (by_step x site i _ dialing_under_both true o t (
            stops x site i _ _
              (set_2-Shows x site _ _ conn c' kind (dial-Shows x site _ _ false c c' _ e a)) refl
              refl (outcome_2 x conn _ o.slot_2.dials kind (set_task-same i _ o.tasks))))
  ]

  -- With both locks within reach, the slot of HTTP/2 as the client sees it.
  cross-IsRun :
      (held : Option (PooledConnection x)) (mine : Option ℕ) (o : Origin) (c : Client x)
      → slot x (key_2 x site) c ≡ held
      → o.slot_2.held ≡ mine
      → o.slot_2.lock ≡ none
      → Same o c
      → Run (cross i mine o) (case_option held (dial_into x (key_2 x site) host port false) pure c)
  unfolding cross
  cross-IsRun none none o c e h free a = dial_under_both-IsRun _ c (set_task-same i _ o.tasks) a
  cross-IsRun (some conn) (some n) o c e h free a = stops x site i _ _ a refl free (
      outcome_2 x conn _ n (a.is_typed.typed host port false conn bound e)
        (set_task-same i _ o.tasks))
  cross-IsRun none (some n) o c e h free a = absurd (let q = a.shown_2 in cc)
  cross-IsRun (some conn) none o c e h free a = absurd (let q = a.shown_2 in cc)

  pub same_key :
      (c : Client x) (b : Bool)
      → IsTyped x proxy c
      → pool_key proxy host port b ≡ pool_key c.proxy host port b
  same_key c b t = ap (λ z. pool_key z host port b) (sym t.same_proxy)

  -- The fallback, with the lock of HTTP/3.
  pub fall_back_dial-IsRun :
      (o : Origin) (c : Client x)
      → o.tasks i ≡ crossing
      → o.slot_2.lock ≡ none
      → Same o c
      → Run o (fall_back_dial x host port c)
  unfolding fall_back_dial step cancel
  fall_back_dial-IsRun o c t free a =
      elim (Call-cases (open_slot x (pool_key c.proxy host port false) c)) [
        | inl (f, c', e) ↦ absurd (open_slot_answers x site _ _ _ c c' f e a)
        | inr (_, c', e) ↦
            rw (fall_back_dial, e)
              (by_step x site i _ crossing true o t (
                through x site i _ h2 (λ o. cross i o.slot_2.held o) o free
                  (subst
                    (λ k.
                      Run (cross i o.slot_2.held o)
                        (case_option (slot x k c') (dial_into x k host port false) pure c'))
                    (same_key c false a.is_typed)
                    (cross-IsRun _ _ o c' refl refl free
                      (open_slot-Shows x site _ _ _ c c' _ e a)))))
      ]

  -- A dial for HTTP/3 with its lock.
  pub dial_3-IsRun :
      (o : Origin) (c : Client x)
      → o.tasks i ≡ dialing h3
      → o.slot_2.lock ≡ none
      → Same o c
      → Run o (dial_or_fall_back x (key_3 x site) host port true c)
  unfolding dial_or_fall_back step dialled cancel set_slot evict
  dial_3-IsRun o c t free a = elim (Call-cases (dial x host port true c)) [
    | inl (panicked, c', e) ↦
        rw (dial_or_fall_back, e)
          (by_drop x site i _ (dialing h3) o refl t (
            stops x site i _ _ (dial-Shows x site _ _ true c c' _ e a) refl free
              (set_task-same i _ o.tasks)))
    | inl (out_of_fuel, c', e) ↦
        rw (dial_or_fall_back, e)
          (by_drop x site i _ (dialing h3) o refl t (
            stops x site i _ _ (dial-Shows x site _ _ true c c' _ e a) refl free
              (set_task-same i _ o.tasks)))
    | inl (error f, c', e) ↦
        rw (dial_or_fall_back, e)
          (by_step x site i _ (dialing h3) false o t (
            fall_back_dial-IsRun _ _ (set_task-same i _ o.tasks) free (
              evict-Shows x site _ _ (origin_key host port) c'
                (dial-Shows x site _ _ true c c' _ e a))))
    | inr (conn, c', e) ↦
        let kind = dial-kind x host port true c c' conn e in
        rw (dial_or_fall_back, e)
          (by_step x site i _ (dialing h3) true o t (
            stops x site i _ _
              (set_3-Shows x site _ _ conn c' kind (dial-Shows x site _ _ true c c' _ e a)) refl
              free (outcome_3 x conn _ o.slot_3.dials kind (set_task-same i _ o.tasks))))
  ]
