-- ===== src/Client/Race/Guarded.antt =====
-- src/client/pool.rs: who holds the lock of a slot, and how one move of a task keeps the books of it.
use mathlib.Core.Option.{some-injective}
use quik.Base.{
  ℕ, suc, ◌≤◌, ◌==◌, Bool, true, false, Option, none, some, arith, ◌≡◌, refl, sym, ◌∙◌, subst,
  Bool-cases, inl, inr,
}
use quik.Client.Race.{
  Protocol, h3, h2, Task, peeking, checking, clearing, entering, dialing, crossing,
  dialing_under_both, sending, retrying, rechecking, redialing, resending, done, failed, Slot,
  set_task, lock_for, release, fill, keep, withdraw, is_holding,
}

-- A task that is about to fill the slot: its lock is held, and nobody fills it meanwhile.
abbrev pub is_filling : Protocol → Task → Bool
is_filling h3 t = is_holding h3 t
is_filling h2 (rechecking c) = false
is_filling h2 (resending c) = false
is_filling h2 t = is_holding h2 t

pub record IsGuarded (p : Protocol) (s : Slot) (tasks : ℕ → Task) : Type 0 where
  pub holds : (j : ℕ) → is_holding p (tasks j) ≡ true → s.lock ≡ some j
  pub holder : (j : ℕ) → s.lock ≡ some j → is_holding p (tasks j) ≡ true
  pub fills : (j : ℕ) → is_filling p (tasks j) ≡ true → s.dials ≤ s.withdrawn
  pub empty : s.held ≡ none → s.dials ≤ s.withdrawn
  pub few : s.dials ≤ suc s.withdrawn

pub is_holding-is_filling :
    (p : Protocol) (t : Task) → is_filling p t ≡ true → is_holding p t ≡ true
is_holding-is_filling h3 t h = h
is_holding-is_filling h2 (rechecking c) h = absurd (cc)
is_holding-is_filling h2 (resending c) h = absurd (cc)
is_holding-is_filling h2 redialing h = h
is_holding-is_filling h2 (peeking p) h = h
is_holding-is_filling h2 (checking c) h = h
is_holding-is_filling h2 clearing h = h
is_holding-is_filling h2 (entering p) h = h
is_holding-is_filling h2 (dialing h3) h = h
is_holding-is_filling h2 (dialing h2) h = h
is_holding-is_filling h2 crossing h = h
is_holding-is_filling h2 dialing_under_both h = h
is_holding-is_filling h2 (sending c) h = h
is_holding-is_filling h2 retrying h = h
is_holding-is_filling h2 (done p c) h = h
is_holding-is_filling h2 failed h = h

set_task-all :
    (P : ℕ → Task → Type 0) (i : ℕ) (t : Task) (tasks : ℕ → Task)
    → P i t
    → ((j : ℕ) → (i == j) ≡ false → P j (tasks j))
    → (j : ℕ) → P j (set_task i t tasks j)
set_task-all P i t tasks p f j = elim (Bool-cases (i == j)) [
  | inl s ↦ let same : i ≡ j = ground arith in rw s (subst (λ k. P k t) same p)
  | inr n ↦ rw n (f j n)
]

-- No other task holds what this one holds.
others_wait :
    (p : Protocol) (i j : ℕ) (s : Slot) (tasks : ℕ → Task)
    → IsGuarded p s tasks
    → is_holding p (tasks i) ≡ true
    → (i == j) ≡ false
    → is_holding p (tasks j) ≡ true
    → ⊥
others_wait p i j s tasks g h n k =
    let same : some i ≡ some j = sym (g.holds i h) ∙ g.holds j k in
    let equal : i ≡ j = some-injective i j same in ground arith

module _ (p : Protocol) (i : ℕ) (t : Task) (s : Slot) (tasks : ℕ → Task)
    (g : IsGuarded p s tasks) where
  -- The task neither takes nor gives this lock.
  pub stays-IsGuarded :
      is_holding p t ≡ is_holding p (tasks i)
      → (is_filling p t ≡ true → s.dials ≤ s.withdrawn)
      → IsGuarded p s (set_task i t tasks)
  stays-IsGuarded e f = record {
    holds =
        set_task-all (λ j t. is_holding p t ≡ true → s.lock ≡ some j) i t tasks
          (λ h. g.holds i (sym e ∙ h)) (λ j n. g.holds j);
    holder =
        set_task-all (λ j t. s.lock ≡ some j → is_holding p t ≡ true) i t tasks
          (λ h. e ∙ g.holder i h) (λ j n. g.holder j);
    fills =
        set_task-all (λ j t. is_filling p t ≡ true → s.dials ≤ s.withdrawn) i t tasks f
          (λ j n. g.fills j);
    empty = g.empty;
    few = g.few;
  }

  pub lock_for-IsGuarded :
      s.lock ≡ none
      → is_holding p t ≡ true
      → (is_filling p t ≡ true → s.held ≡ none)
      → IsGuarded p (lock_for i s) (set_task i t tasks)
  lock_for-IsGuarded free h f = record {
    holds =
        set_task-all (λ j t. is_holding p t ≡ true → some i ≡ some j) i t tasks (λ k. refl)
          (λ j n k. absurd (let k' = g.holds j k in cc));
    holder =
        set_task-all (λ j t. some i ≡ some j → is_holding p t ≡ true) i t tasks (λ k. h)
          (λ j n k. absurd (let same : i ≡ j = some-injective i j k in ground arith));
    fills =
        set_task-all (λ j t. is_filling p t ≡ true → s.dials ≤ s.withdrawn) i t tasks
          (λ k. g.empty (f k)) (λ j n. g.fills j);
    empty = g.empty;
    few = g.few;
  }

  -- A task that has the lock gives it back, and leaves this in the slot.
  pub release-IsGuarded :
      (held : Option ℕ)
      → is_holding p (tasks i) ≡ true
      → is_holding p t ≡ false
      → (held ≡ none → s.dials ≤ s.withdrawn)
      → IsGuarded p (record (release s) { held = held }) (set_task i t tasks)
  release-IsGuarded held h n f = record {
    holds =
        set_task-all (λ j t. is_holding p t ≡ true → none ≡ some j) i t tasks (λ k. absurd (cc))
          (λ j d k. absurd (others_wait p i j s tasks g h d k));
    holder = λ j k. absurd (cc);
    fills =
        set_task-all (λ j t. is_filling p t ≡ true → s.dials ≤ s.withdrawn) i t tasks
          (λ k. absurd (let k' = is_holding-is_filling p t k in cc)) (λ j n. g.fills j);
    empty = f;
    few = g.few;
  }

  pub fill-IsGuarded :
      is_filling p (tasks i) ≡ true
      → is_holding p t ≡ false
      → IsGuarded p (fill s) (set_task i t tasks)
  fill-IsGuarded f n =
      let h = is_holding-is_filling p (tasks i) f in
      let r = release-IsGuarded s.held h n g.empty in
      record {
        holds = r.holds;
        holder = r.holder;
        fills =
            set_task-all (λ j t. is_filling p t ≡ true → suc s.dials ≤ s.withdrawn) i t tasks
              (λ k. absurd (let k' = is_holding-is_filling p t k in cc))
              (λ j d k.
                absurd (others_wait p i j s tasks g h d (is_holding-is_filling p (tasks j) k)));
        empty = λ e. absurd (cc);
        few = omega (arith, g.fills i f);
      }

  -- A task that has the lock leaves this in the slot, and keeps the lock.
  pub refill-IsGuarded :
      (held : Option ℕ)
      → is_holding p t ≡ is_holding p (tasks i)
      → (is_filling p t ≡ true → s.dials ≤ s.withdrawn)
      → (held ≡ none → s.dials ≤ s.withdrawn)
      → IsGuarded p (record s { held = held }) (set_task i t tasks)
  refill-IsGuarded held e f n =
      let g' = stays-IsGuarded e f in
      record { holds = g'.holds; holder = g'.holder; fills = g'.fills; empty = n; few = g'.few }

  -- It keeps a connection that it dialled, and the lock.
  pub keep-IsGuarded :
      is_filling p (tasks i) ≡ true
      → is_holding p t ≡ true
      → is_filling p t ≡ false
      → IsGuarded p (keep s) (set_task i t tasks)
  keep-IsGuarded f e n =
      let h = is_holding-is_filling p (tasks i) f in
      let g' = stays-IsGuarded (cc) (λ k. absurd (cc)) in
      record {
        holds = g'.holds;
        holder = g'.holder;
        fills =
            set_task-all (λ j t. is_filling p t ≡ true → suc s.dials ≤ s.withdrawn) i t tasks
              (λ k. absurd (cc))
              (λ j d k.
                absurd (others_wait p i j s tasks g h d (is_holding-is_filling p (tasks j) k)));
        empty = λ k. absurd (cc);
        few = omega (arith, g.fills i f);
      }

  -- A connection is withdrawn, and the slot emptied or not.
  pub withdraw-IsGuarded :
      (held : Option ℕ)
      → is_holding p t ≡ is_holding p (tasks i)
      → IsGuarded p (record (withdraw s) { held = held }) (set_task i t tasks)
  withdraw-IsGuarded held e = record {
    holds =
        set_task-all (λ j t. is_holding p t ≡ true → s.lock ≡ some j) i t tasks
          (λ h. g.holds i (sym e ∙ h)) (λ j n. g.holds j);
    holder =
        set_task-all (λ j t. s.lock ≡ some j → is_holding p t ≡ true) i t tasks
          (λ h. e ∙ g.holder i h) (λ j n. g.holder j);
    fills = λ j k. g.few;
    empty = λ k. g.few;
    few = omega (arith, g.few);
  }
