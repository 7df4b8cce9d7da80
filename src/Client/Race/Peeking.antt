-- ===== src/Client/Race/Peeking.antt =====
-- src/client/pool.rs: a call alone that finds its slot empty, as turns of its task.
use quik.Base.{ℕ, true, false, none, ◌≡◌, sym, subst}
use quik.Failure.{Failure}
use quik.Effect.{Result}
use quik.Externals.{Externals}
use quik.Client.{PooledConnection, Client}
use quik.Client.Acquire.{dial_or_fall_back}
use quik.Client.Race.{h3, h2, peeking, entering, dialing, Origin, goes, peek, enter, step}
use quik.Client.Race.Endings.{set_task-same}
use quik.Client.Race.Shown.{Site, key_3, key_2}
use quik.Client.Race.Alone.{IsRun, Alike, by_step, through}
use quik.Client.Race.Dials.{dial_2-IsRun, dial_3-IsRun}

module _ (x : Externals) (site : Site) (i : ℕ) where
  open site use {proxy, host, port, bound}

  abbrev Run : Origin → Result (Failure x.Foreign) (PooledConnection x) × Client x → Type 0
  Run = IsRun x site i

  abbrev Same : Origin → Client x → Type 0
  Same = Alike x site i

  -- A task that finds its slot empty.
  pub empty_3-IsRun :
      (o : Origin) (c : Client x)
      → o.tasks i ≡ peeking h3
      → o.slot_3.held ≡ none
      → o.slot_3.lock ≡ none
      → o.slot_2.lock ≡ none
      → Same o c
      → Run o (dial_or_fall_back x (key_3 x site) host port true c)
  unfolding step peek enter
  empty_3-IsRun o c t n own free a =
      let r = dial_or_fall_back x (key_3 x site) host port true c in
      by_step x site i _ (peeking h3) true o t (
        through x site i _ h3 (λ o. peek h3 i o.slot_3.held o) o own
          (subst (λ m. Run (peek h3 i m o) r) (sym n)
            (by_step x site i _ (entering h3) true _ (set_task-same i _ o.tasks) (
              through x site i _ h3 (λ o. enter h3 i o.slot_3.held o) _ own
                (subst (λ m. Run (enter h3 i m (goes i (entering h3) o)) r) (sym n)
                  (dial_3-IsRun x site i _ c
                    (set_task-same i (dialing h3) (goes i (entering h3) o).tasks) free a))))))

  pub empty_2-IsRun :
      (o : Origin) (c : Client x)
      → o.tasks i ≡ peeking h2
      → o.slot_2.held ≡ none
      → o.slot_3.lock ≡ none
      → o.slot_2.lock ≡ none
      → Same o c
      → Run o (dial_or_fall_back x (key_2 x site) host port false c)
  unfolding step peek enter
  empty_2-IsRun o c t n own free a =
      let r = dial_or_fall_back x (key_2 x site) host port false c in
      by_step x site i _ (peeking h2) true o t (
        through x site i _ h2 (λ o. peek h2 i o.slot_2.held o) o free
          (subst (λ m. Run (peek h2 i m o) r) (sym n)
            (by_step x site i _ (entering h2) true _ (set_task-same i _ o.tasks) (
              through x site i _ h2 (λ o. enter h2 i o.slot_2.held o) _ free
                (subst (λ m. Run (enter h2 i m (goes i (entering h2) o)) r) (sym n)
                  (dial_2-IsRun x site i _ c
                    (set_task-same i (dialing h2) (goes i (entering h2) o).tasks) own a))))))
