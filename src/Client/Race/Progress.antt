-- ===== src/Client/Race/Progress.antt =====
-- src/client/pool.rs: whoever holds a lock of an origin gives it back, so that no call waits forever
-- for another.
use quik.Base.{ℕ, true, false, Option, none, some, List, ◌≡◌, refl, Option-cases, inl, inr}
use quik.Client.Race.{
  Protocol, h3, h2, Task, peeking, checking, clearing, entering, dialing, crossing,
  dialing_under_both, sending, retrying, rechecking, redialing, resending, done, failed, Origin,
  dialled, cross, dialled_under_both, rechecked, redialled, resent, step, is_holding, Turn, run,
  unconnected,
}
use quik.Client.Race.Moves.{IsSound}
use quik.Client.Race.Serial.{turn-IsSound, run-IsSound, unconnected-IsSound}
use quik.Client.Race.Endings.{
  Can, now, after, and_then, moves, through, set_task-same, Ends, alone_ends,
}

abbrev Unlocked2 : Origin → Type 0
Unlocked2 o = o.slot_2.lock ≡ none

abbrev Unlocked : Origin → Type 0
Unlocked o = (o.slot_3.lock ≡ none) × (o.slot_2.lock ≡ none)

-- The holder of a lock, by what it is doing.
module _ (i : ℕ) where
  dialing_2_unlocks : (o : Origin) → o.tasks i ≡ dialing h2 → Can Unlocked2 o
  unfolding step dialled
  dialing_2_unlocks o e = moves i (dialing h2) o e (elim [ true ↦ now refl | false ↦ now refl ])

  under_both_unlocks : (o : Origin) → o.tasks i ≡ dialing_under_both → Can Unlocked o
  unfolding step dialled_under_both
  under_both_unlocks o e =
      moves i dialing_under_both o e (elim [ true ↦ now (refl, refl) | false ↦ now (refl, refl) ])

  resending_unlocks : (c : ℕ) (o : Origin) → o.tasks i ≡ resending c → Can Unlocked2 o
  unfolding step resent
  resending_unlocks c o e = moves i (resending c) o e (λ verdict. now refl)

  redialing_unlocks : (o : Origin) → o.tasks i ≡ redialing → Can Unlocked2 o
  unfolding step redialled
  redialing_unlocks o e =
      moves i redialing o e
        (elim [ true ↦ resending_unlocks _ _ (set_task-same i _ o.tasks) | false ↦ now refl ])

  rechecking_unlocks : (c : ℕ) (o : Origin) → o.tasks i ≡ rechecking c → Can Unlocked2 o
  unfolding step rechecked
  rechecking_unlocks c o e = moves i (rechecking c) o e (elim [
    | true ↦ resending_unlocks c _ (set_task-same i _ o.tasks)
    | false ↦ redialing_unlocks _ (set_task-same i _ o.tasks)
  ])

  cross_unlocks :
      (held : Option ℕ) (o : Origin) → o.slot_2.lock ≡ none → Can Unlocked (cross i held o)
  unfolding cross
  cross_unlocks none o free = under_both_unlocks _ (set_task-same i _ o.tasks)
  cross_unlocks (some c) o free = now (refl, free)

  crossing_unlocks : (o : Origin) → o.tasks i ≡ crossing → o.slot_2.lock ≡ none → Can Unlocked o
  unfolding step
  crossing_unlocks o e free = moves i crossing o e (λ verdict.
      through h2 (λ o. cross i o.slot_2.held o) o free (cross_unlocks o.slot_2.held o free))

  dialing_3_unlocks : (o : Origin) → o.tasks i ≡ dialing h3 → o.slot_2.lock ≡ none → Can Unlocked o
  unfolding step dialled
  dialing_3_unlocks o e free = moves i (dialing h3) o e (elim [
    | true ↦ now (refl, free)
    | false ↦ crossing_unlocks _ (set_task-same i _ o.tasks) free
  ])

  holder_2_unlocks :
      (t : Task) (o : Origin) → o.tasks i ≡ t → is_holding h2 t ≡ true → Can Unlocked2 o
  holder_2_unlocks (dialing h2) o e h = dialing_2_unlocks o e
  holder_2_unlocks dialing_under_both o e h =
      and_then (under_both_unlocks o e) (λ o (own, free). now free)
  holder_2_unlocks (rechecking c) o e h = rechecking_unlocks c o e
  holder_2_unlocks redialing o e h = redialing_unlocks o e
  holder_2_unlocks (resending c) o e h = resending_unlocks c o e
  holder_2_unlocks (dialing h3) o e h = absurd (cc)
  holder_2_unlocks crossing o e h = absurd (cc)
  holder_2_unlocks (peeking p) o e h = absurd (cc)
  holder_2_unlocks (checking c) o e h = absurd (cc)
  holder_2_unlocks clearing o e h = absurd (cc)
  holder_2_unlocks (entering p) o e h = absurd (cc)
  holder_2_unlocks (sending c) o e h = absurd (cc)
  holder_2_unlocks retrying o e h = absurd (cc)
  holder_2_unlocks (done p c) o e h = absurd (cc)
  holder_2_unlocks failed o e h = absurd (cc)

  holder_3_unlocks :
      (t : Task) (o : Origin)
      → o.tasks i ≡ t
      → is_holding h3 t ≡ true
      → o.slot_2.lock ≡ none
      → Can Unlocked o
  holder_3_unlocks (dialing h3) o e h free = dialing_3_unlocks o e free
  holder_3_unlocks crossing o e h free = crossing_unlocks o e free
  holder_3_unlocks dialing_under_both o e h free = under_both_unlocks o e
  holder_3_unlocks (dialing h2) o e h free = absurd (cc)
  holder_3_unlocks (rechecking c) o e h free = absurd (cc)
  holder_3_unlocks redialing o e h free = absurd (cc)
  holder_3_unlocks (resending c) o e h free = absurd (cc)
  holder_3_unlocks (peeking p) o e h free = absurd (cc)
  holder_3_unlocks (checking c) o e h free = absurd (cc)
  holder_3_unlocks clearing o e h free = absurd (cc)
  holder_3_unlocks (entering p) o e h free = absurd (cc)
  holder_3_unlocks (sending c) o e h free = absurd (cc)
  holder_3_unlocks retrying o e h free = absurd (cc)
  holder_3_unlocks (done p c) o e h free = absurd (cc)
  holder_3_unlocks failed o e h free = absurd (cc)

-- What turns can bring about is sound with it.
with_soundness :
    {P : Origin → Type 0} {o : Origin} → IsSound o → Can P o → Can (λ o. IsSound o × P o) o
with_soundness g (now p) = now (g, p)
with_soundness {P} {o} g (after i c) =
    after i (λ verdict. with_soundness (turn-IsSound (i, some verdict) o g) (c verdict))

unlocks_2 : (o : Origin) → IsSound o → Can Unlocked2 o
unlocks_2 o g = elim (Option-cases o.slot_2.lock) [
  | inl free ↦ now free
  | inr (i, e) ↦ holder_2_unlocks i (o.tasks i) o refl (g.over_2.holder i e)
]

unlocks_3 : (o : Origin) → IsSound o → o.slot_2.lock ≡ none → Can Unlocked o
unlocks_3 o g free = elim (Option-cases o.slot_3.lock) [
  | inl own ↦ now (own, free)
  | inr (i, e) ↦ holder_3_unlocks i (o.tasks i) o refl (g.over_3.holder i e) free
]

unlocks : (o : Origin) → IsSound o → Can Unlocked o
unlocks o g = and_then (with_soundness g (unlocks_2 o g)) (λ o (g, free). unlocks_3 o g free)

-- Whatever calls to an origin have done so far, and whichever of them were dropped, no call is blocked
-- for good: turns can be given to the calls such that it ends, whatever the network answers at each
-- of them. In particular the two locks never wait for each other.
pub run-Ends :
    (over : ℕ → Protocol) (turns : List Turn) (j : ℕ) → Ends j (run turns (unconnected over))
run-Ends over turns j =
    and_then (unlocks _ (run-IsSound turns (unconnected over) (unconnected-IsSound over)))
      (λ o (own, free). alone_ends j (o.tasks j) o refl own free)
