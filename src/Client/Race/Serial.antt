-- ===== src/Client/Race/Serial.antt =====
-- src/client/pool.rs: the locks of an origin's slots let one task dial into a slot at a time, and only
-- where the slot is empty or its connection is not ready.
use mathlib.Core.Option.{some-injective}
use quik.Base.{
  ℕ, suc, ◌≤◌, Bool, true, false, none, some, List, [], ◌∷◌, arith, ◌≡◌, refl, sym, ◌∙◌, Bool-cases,
  Option-cases, inl, inr,
}
use quik.Client.Race.{
  Protocol, h3, h2, Task, peeking, checking, clearing, entering, dialing, crossing,
  dialing_under_both, sending, retrying, rechecking, redialing, resending, done, failed, Slot,
  Origin, slot_of, set_task, peek, enter, cross, retry, clear, unless_locked, step, is_holding,
  is_ended, release_if, cancel, Turn, turn, run, unconnected,
}
use quik.Client.Race.Guarded.{IsGuarded, release-IsGuarded}
use quik.Client.Race.Moves.{
  IsSound, stays_out, goes-IsSound, peek-IsSound, enter-IsSound, dialled-IsSound, cross-IsSound,
  dialled_under_both-IsSound, retry-IsSound, clear-IsSound, rechecked-IsSound, redialled-IsSound,
  resent-IsSound,
}

module _ (i : ℕ) (o : Origin) (g : IsSound o) where
  unless_locked-IsSound :
      (p : Protocol) (f : Origin → Origin)
      → ((slot_of p o).lock ≡ none → IsSound (f o))
      → IsSound (unless_locked p f o)
  unless_locked-IsSound p f h = elim (Option-cases (slot_of p o).lock) [
    | inl e ↦ simp (unless_locked, e) (h e)
    | inr (j, e) ↦ simp (unless_locked, e) g
  ]

  step-IsSound : (t : Task) (verdict : Bool) → o.tasks i ≡ t → IsSound (step t i verdict o)
  unfolding step
  step-IsSound (peeking p) verdict e =
      unless_locked-IsSound p (λ o. peek p i (slot_of p o).held o)
        (λ free. peek-IsSound i o g p _ e)
  step-IsSound (checking c) true e =
      goes-IsSound i o g (done h2 c) refl refl (rw e refl) (rw e refl)
  step-IsSound (checking c) false e = goes-IsSound i o g clearing refl refl (rw e refl) (rw e refl)
  step-IsSound clearing verdict e =
      unless_locked-IsSound h2 (clear i) (λ free. clear-IsSound i o g e)
  step-IsSound (entering p) verdict e =
      unless_locked-IsSound p (λ o. enter p i (slot_of p o).held o)
        (λ free. enter-IsSound i o g p _ refl free e)
  step-IsSound (dialing p) verdict e = dialled-IsSound i o g p verdict e
  step-IsSound crossing verdict e =
      unless_locked-IsSound h2 (λ o. cross i o.slot_2.held o)
        (λ free. cross-IsSound i o g _ refl free e)
  step-IsSound dialing_under_both verdict e = dialled_under_both-IsSound i o g verdict e
  step-IsSound (sending c) true e = goes-IsSound i o g (done h3 c) refl refl (rw e refl) (rw e refl)
  step-IsSound (sending c) false e = goes-IsSound i o g retrying refl refl (rw e refl) (rw e refl)
  step-IsSound retrying verdict e =
      unless_locked-IsSound h2 (λ o. retry i o.slot_2.held o)
        (λ free. retry-IsSound i o g _ refl free e)
  step-IsSound (rechecking c) verdict e = rechecked-IsSound i o g c verdict e
  step-IsSound redialing verdict e = redialled-IsSound i o g verdict e
  step-IsSound (resending c) verdict e = resent-IsSound i o g c verdict e
  step-IsSound (done p c) verdict e = g
  step-IsSound failed verdict e = g

  release_if-IsGuarded :
      (p : Protocol) (b : Bool) (s : Slot)
      → is_holding p (o.tasks i) ≡ b
      → IsGuarded p s o.tasks
      → IsGuarded p (release_if b s) (set_task i failed o.tasks)
  release_if-IsGuarded h3 true s e k =
      release-IsGuarded h3 i failed s o.tasks k s.held e refl k.empty
  release_if-IsGuarded h2 true s e k =
      release-IsGuarded h2 i failed s o.tasks k s.held e refl k.empty
  release_if-IsGuarded h3 false s e k = stays_out h3 i failed s o.tasks refl e k
  release_if-IsGuarded h2 false s e k = stays_out h2 i failed s o.tasks refl e k

  withdrawn-release_if : (b : Bool) (s : Slot) → (release_if b s).withdrawn ≡ s.withdrawn
  withdrawn-release_if true s = refl
  withdrawn-release_if false s = refl

  cancel-IsSound : IsSound (cancel (o.tasks i) i o)
  unfolding cancel
  cancel-IsSound = elim (Bool-cases (is_ended (o.tasks i))) [
    | inl e ↦ simp (cancel, e) g
    | inr e ↦
        simp (cancel, e)
          record {
            over_3 = release_if-IsGuarded h3 _ o.slot_3 refl g.over_3;
            over_2 = release_if-IsGuarded h2 _ o.slot_2 refl g.over_2;
            kept = withdrawn-release_if _ o.slot_3 ∙ g.kept;
          }
  ]

pub turn-IsSound : (t : Turn) (o : Origin) → IsSound o → IsSound (turn t o)
unfolding turn
turn-IsSound (i, none) o g = cancel-IsSound i o g
turn-IsSound (i, some verdict) o g = step-IsSound i o g (o.tasks i) verdict refl

pub run-IsSound : (turns : List Turn) (o : Origin) → IsSound o → IsSound (run turns o)
unfolding run
run-IsSound [] o g = g
run-IsSound (t ∷ turns) o g = run-IsSound turns _ (turn-IsSound t o g)

pub unconnected-IsSound : (over : ℕ → Protocol) → IsSound (unconnected over)
unconnected-IsSound over = record {
  over_3 = record {
    holds = λ j h. absurd (cc);
    holder = λ j h. absurd (cc);
    fills = λ j h. omega arith;
    empty = λ e. omega arith;
    few = omega arith;
  };
  over_2 = record {
    holds = λ j h. absurd (cc);
    holder = λ j h. absurd (cc);
    fills = λ j h. omega arith;
    empty = λ e. omega arith;
    few = omega arith;
  };
  kept = refl;
}

-- The lock of a slot has one holder at most, a task that dials into it among them; a dial into the
-- slot of HTTP/2 beyond the first has a task before it that emptied the slot or gave up its
-- connection; and at most one dial for HTTP/3 succeeds.
pub record IsSerial (o : Origin) : Type 0 where
  pub alone_3 :
      (i j : ℕ) → is_holding h3 (o.tasks i) ≡ true → is_holding h3 (o.tasks j) ≡ true → i ≡ j
  pub alone_2 :
      (i j : ℕ) → is_holding h2 (o.tasks i) ≡ true → is_holding h2 (o.tasks j) ≡ true → i ≡ j
  pub few_dials : o.slot_2.dials ≤ suc o.slot_2.withdrawn
  pub one_dial : o.slot_3.dials ≤ 1

-- However many calls go to an origin without connections, over whichever protocol each, whatever the
-- order of their turns, the answers of the network and the calls that are dropped: no two of them
-- hold the lock of the same slot, which every dial is made under; the dials for HTTP/2 that succeeded
-- are at most one more than the times that a task whose `ready` had failed emptied the slot or dialled
-- in place of its connection; and at most one dial for HTTP/3 succeeded.
pub run-IsSerial :
    (over : ℕ → Protocol) (turns : List Turn) → IsSerial (run turns (unconnected over))
run-IsSerial over turns =
    let g = run-IsSound turns (unconnected over) (unconnected-IsSound over) in
    record {
      alone_3 = λ i j h k. some-injective i j (sym (g.over_3.holds i h) ∙ g.over_3.holds j k);
      alone_2 = λ i j h k. some-injective i j (sym (g.over_2.holds i h) ∙ g.over_2.holds j k);
      few_dials = g.over_2.few;
      one_dial = omega (arith, g.over_3.few, g.kept);
    }
