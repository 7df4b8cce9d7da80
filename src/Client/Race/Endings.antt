-- ===== src/Client/Race/Endings.antt =====
-- src/client/pool.rs: the two locks of an origin never block each other, and a task that has its turns
-- ends.
use quik.Base.{ℕ, ◌==◌, Bool, true, false, Option, none, some, arith, ◌≡◌, refl, sym, subst}
use quik.Client.Race.{
  Protocol, h3, h2, Task, peeking, checking, clearing, entering, dialing, crossing,
  dialing_under_both, sending, retrying, rechecking, redialing, resending, done, failed, Origin,
  slot_of, set_task, peek, enter, dialled, cross, dialled_under_both, retry, clear, rechecked,
  redialled, resent, unless_locked, step, is_ended, turn,
}

-- Turns can be given out such that this comes to hold, whatever the network says at each.
pub data Can (P : Origin → Type 0) : Origin → Type 0 where
  now : {o : Origin} → P o → Can P o
  after : {o : Origin} (i : ℕ) → ((verdict : Bool) → Can P (turn (i, some verdict) o)) → Can P o

pub and_then :
    {P Q : Origin → Type 0} {o : Origin} → Can P o → ((o : Origin) → P o → Can Q o) → Can Q o
and_then (now p) f = f _ p
and_then (after i c) f = after i (λ verdict. and_then (c verdict) f)

pub moves :
    {P : Origin → Type 0} (i : ℕ) (t : Task) (o : Origin)
    → o.tasks i ≡ t
    → ((verdict : Bool) → Can P (step t i verdict o))
    → Can P o
unfolding turn
moves {P} i t o e f =
    after i (λ verdict. subst (λ t. Can P (step t i verdict o)) (sym e) (f verdict))

pub set_task-same : (i : ℕ) (t : Task) (tasks : ℕ → Task) → set_task i t tasks i ≡ t
set_task-same i t tasks = let same : (i == i) ≡ true = ground arith in rw same refl

pub through :
    {P : Origin → Type 0} (p : Protocol) (f : Origin → Origin) (o : Origin)
    → (slot_of p o).lock ≡ none
    → Can P (f o)
    → Can P (unless_locked p f o)
through p f o free c = rw free c

abbrev pub Ends : ℕ → Origin → Type 0
Ends j = Can (λ o. is_ended (o.tasks j) ≡ true)

-- A task ends by its own turns, if the locks it may want are free.
module _ (i : ℕ) where
  at : (t : Task) (o : Origin) → is_ended t ≡ true → o.tasks i ≡ t → Ends i o
  at t o h e = now (rw e h)

  dialing_2_ends : (o : Origin) → o.tasks i ≡ dialing h2 → Ends i o
  unfolding step dialled
  dialing_2_ends o e = moves i (dialing h2) o e (elim [
    | true ↦ at _ _ refl (set_task-same i _ o.tasks)
    | false ↦ at _ _ refl (set_task-same i _ o.tasks)
  ])

  under_both_ends : (o : Origin) → o.tasks i ≡ dialing_under_both → Ends i o
  unfolding step dialled_under_both
  under_both_ends o e = moves i dialing_under_both o e (elim [
    | true ↦ at _ _ refl (set_task-same i _ o.tasks)
    | false ↦ at _ _ refl (set_task-same i _ o.tasks)
  ])

  resending_ends : (c : ℕ) (o : Origin) → o.tasks i ≡ resending c → Ends i o
  unfolding step resent
  resending_ends c o e = moves i (resending c) o e (elim [
    | true ↦ at _ _ refl (set_task-same i _ o.tasks)
    | false ↦ at _ _ refl (set_task-same i _ o.tasks)
  ])

  redialing_ends : (o : Origin) → o.tasks i ≡ redialing → Ends i o
  unfolding step redialled
  redialing_ends o e = moves i redialing o e (elim [
    | true ↦ resending_ends _ _ (set_task-same i _ o.tasks)
    | false ↦ at _ _ refl (set_task-same i _ o.tasks)
  ])

  rechecking_ends : (c : ℕ) (o : Origin) → o.tasks i ≡ rechecking c → Ends i o
  unfolding step rechecked
  rechecking_ends c o e = moves i (rechecking c) o e (elim [
    | true ↦ resending_ends c _ (set_task-same i _ o.tasks)
    | false ↦ redialing_ends _ (set_task-same i _ o.tasks)
  ])

  retry_ends : (held : Option ℕ) (o : Origin) → Ends i (retry i held o)
  unfolding retry
  retry_ends none o = redialing_ends _ (set_task-same i _ o.tasks)
  retry_ends (some c) o = rechecking_ends c _ (set_task-same i _ o.tasks)

  cross_ends : (held : Option ℕ) (o : Origin) → Ends i (cross i held o)
  unfolding cross
  cross_ends none o = under_both_ends _ (set_task-same i _ o.tasks)
  cross_ends (some c) o = at _ _ refl (set_task-same i _ o.tasks)

  -- From here on the lock of HTTP/2 is free.
  retrying_ends : (o : Origin) → o.tasks i ≡ retrying → o.slot_2.lock ≡ none → Ends i o
  unfolding step
  retrying_ends o e free =
      moves i retrying o e
        (λ verdict. through h2 (λ o. retry i o.slot_2.held o) o free (retry_ends o.slot_2.held o))

  crossing_ends : (o : Origin) → o.tasks i ≡ crossing → o.slot_2.lock ≡ none → Ends i o
  unfolding step
  crossing_ends o e free =
      moves i crossing o e
        (λ verdict. through h2 (λ o. cross i o.slot_2.held o) o free (cross_ends o.slot_2.held o))

  sending_ends : (c : ℕ) (o : Origin) → o.tasks i ≡ sending c → o.slot_2.lock ≡ none → Ends i o
  unfolding step
  sending_ends c o e free = moves i (sending c) o e (elim [
    | true ↦ at _ _ refl (set_task-same i _ o.tasks)
    | false ↦ retrying_ends _ (set_task-same i _ o.tasks) free
  ])

  dialing_ends :
      (p : Protocol) (o : Origin) → o.tasks i ≡ dialing p → o.slot_2.lock ≡ none → Ends i o
  unfolding step dialled
  dialing_ends h3 o e free = moves i (dialing h3) o e (elim [
    | true ↦ sending_ends _ _ (set_task-same i _ o.tasks) free
    | false ↦ crossing_ends _ (set_task-same i _ o.tasks) free
  ])
  dialing_ends h2 o e free = dialing_2_ends o e

  enter_empty_ends : (p : Protocol) (o : Origin) → o.slot_2.lock ≡ none → Ends i (enter p i none o)
  unfolding enter
  enter_empty_ends h3 o free = dialing_ends h3 _ (set_task-same i _ o.tasks) free
  enter_empty_ends h2 o free = dialing_2_ends _ (set_task-same i _ o.tasks)

  entering_empty_ends :
      (p : Protocol) (o : Origin)
      → o.tasks i ≡ entering p
      → (slot_of p o).lock ≡ none
      → (slot_of p o).held ≡ none
      → o.slot_2.lock ≡ none
      → Ends i o
  unfolding step
  entering_empty_ends p o e own n free = moves i (entering p) o e (λ verdict.
      through p (λ o. enter p i (slot_of p o).held o) o own (rw n (enter_empty_ends p o free)))

  peek_empty_ends :
      (p : Protocol) (o : Origin)
      → (slot_of p o).lock ≡ none
      → (slot_of p o).held ≡ none
      → o.slot_2.lock ≡ none
      → Ends i (peek p i none o)
  unfolding peek
  peek_empty_ends h3 o own n free = entering_empty_ends h3 _ (set_task-same i _ o.tasks) own n free
  peek_empty_ends h2 o own n free = entering_empty_ends h2 _ (set_task-same i _ o.tasks) own n free

  clearing_ends : (o : Origin) → o.tasks i ≡ clearing → o.slot_2.lock ≡ none → Ends i o
  unfolding step clear
  clearing_ends o e free = moves i clearing o e (λ verdict. through h2 (clear i) o free (
      moves i (peeking h2) _ (set_task-same i _ o.tasks) (λ verdict.
        through h2 (λ o. peek h2 i (slot_of h2 o).held o) _ free
          (peek_empty_ends h2 _ free refl free))))

  checking_ends : (c : ℕ) (o : Origin) → o.tasks i ≡ checking c → o.slot_2.lock ≡ none → Ends i o
  unfolding step
  checking_ends c o e free = moves i (checking c) o e (elim [
    | true ↦ at _ _ refl (set_task-same i _ o.tasks)
    | false ↦ clearing_ends _ (set_task-same i _ o.tasks) free
  ])

  peek_ends :
      (p : Protocol) (held : Option ℕ) (o : Origin)
      → (slot_of p o).held ≡ held
      → (slot_of p o).lock ≡ none
      → o.slot_2.lock ≡ none
      → Ends i (peek p i held o)
  unfolding peek
  peek_ends p none o n own free = peek_empty_ends p o own n free
  peek_ends h3 (some c) o n own free = sending_ends c _ (set_task-same i _ o.tasks) free
  peek_ends h2 (some c) o n own free = checking_ends c _ (set_task-same i _ o.tasks) free

  peeking_ends :
      (p : Protocol) (o : Origin)
      → o.tasks i ≡ peeking p
      → (slot_of p o).lock ≡ none
      → o.slot_2.lock ≡ none
      → Ends i o
  unfolding step
  peeking_ends p o e own free = moves i (peeking p) o e (λ verdict.
      through p (λ o. peek p i (slot_of p o).held o) o own (peek_ends p _ o refl own free))

  enter_ends :
      (p : Protocol) (held : Option ℕ) (o : Origin)
      → (slot_of p o).lock ≡ none
      → o.slot_2.lock ≡ none
      → Ends i (enter p i held o)
  unfolding enter
  enter_ends p none o own free = enter_empty_ends p o free
  enter_ends h3 (some c) o own free = peeking_ends h3 _ (set_task-same i _ o.tasks) own free
  enter_ends h2 (some c) o own free = peeking_ends h2 _ (set_task-same i _ o.tasks) own free

  entering_ends :
      (p : Protocol) (o : Origin)
      → o.tasks i ≡ entering p
      → (slot_of p o).lock ≡ none
      → o.slot_2.lock ≡ none
      → Ends i o
  unfolding step
  entering_ends p o e own free =
      moves i (entering p) o e (λ verdict.
        through p (λ o. enter p i (slot_of p o).held o) o own (enter_ends p _ o own free))

  pub alone_ends :
      (t : Task) (o : Origin)
      → o.tasks i ≡ t
      → o.slot_3.lock ≡ none
      → o.slot_2.lock ≡ none
      → Ends i o
  alone_ends (peeking h3) o e own free = peeking_ends h3 o e own free
  alone_ends (peeking h2) o e own free = peeking_ends h2 o e free free
  alone_ends (checking c) o e own free = checking_ends c o e free
  alone_ends clearing o e own free = clearing_ends o e free
  alone_ends (entering h3) o e own free = entering_ends h3 o e own free
  alone_ends (entering h2) o e own free = entering_ends h2 o e free free
  alone_ends (dialing p) o e own free = dialing_ends p o e free
  alone_ends crossing o e own free = crossing_ends o e free
  alone_ends dialing_under_both o e own free = under_both_ends o e
  alone_ends (sending c) o e own free = sending_ends c o e free
  alone_ends retrying o e own free = retrying_ends o e free
  alone_ends (rechecking c) o e own free = rechecking_ends c o e
  alone_ends redialing o e own free = redialing_ends o e
  alone_ends (resending c) o e own free = resending_ends c o e
  alone_ends (done p c) o e own free = at _ o refl e
  alone_ends failed o e own free = at _ o refl e
