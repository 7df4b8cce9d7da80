-- ===== src/Client/Race/Moves.antt =====
-- src/client/pool.rs: every move of a task keeps the books of both slots.
use quik.Base.{if◌then◌else◌, arith, ℕ, Bool, true, false, Option, none, some, ◌≡◌, refl}
use quik.Client.Race.{
  Protocol, h3, h2, Task, peeking, checking, clearing, entering, dialing, crossing,
  dialing_under_both, sending, retrying, rechecking, redialing, resending, done, failed, Slot,
  Origin, slot_of, set_task, peek, enter, dialled, cross, dialled_under_both, retry, clear,
  rechecked, redialled, resent, is_holding,
}
use quik.Client.Race.Guarded.{
  IsGuarded, is_holding-is_filling, stays-IsGuarded, lock_for-IsGuarded, release-IsGuarded,
  fill-IsGuarded, withdraw-IsGuarded, refill-IsGuarded, keep-IsGuarded,
}

pub record IsSound (o : Origin) : Type 0 where
  pub over_3 : IsGuarded h3 o.slot_3 o.tasks
  pub over_2 : IsGuarded h2 o.slot_2 o.tasks
  -- A connection of HTTP/3 stays in its slot.
  pub kept : o.slot_3.withdrawn ≡ 0

-- The task touches a slot neither before nor after.
pub stays_out :
    (p : Protocol) (i : ℕ) (t : Task) (s : Slot) (tasks : ℕ → Task)
    → is_holding p t ≡ false
    → is_holding p (tasks i) ≡ false
    → IsGuarded p s tasks
    → IsGuarded p s (set_task i t tasks)
stays_out p i t s tasks e f g =
    stays-IsGuarded p i t s tasks g (cc) (λ k. absurd (let k' = is_holding-is_filling p t k in cc))

-- A task that is at this point moves.
module _ (i : ℕ) (o : Origin) (g : IsSound o) where
  pub goes-IsSound :
      (t : Task)
      → is_holding h3 t ≡ false
      → is_holding h2 t ≡ false
      → is_holding h3 (o.tasks i) ≡ false
      → is_holding h2 (o.tasks i) ≡ false
      → IsSound (record o { tasks = set_task i t o.tasks })
  goes-IsSound t e f h k = record {
    over_3 = stays_out h3 i t o.slot_3 o.tasks e h g.over_3;
    over_2 = stays_out h2 i t o.slot_2 o.tasks f k g.over_2;
    kept = g.kept;
  }

  pub peek-IsSound :
      (p : Protocol) (held : Option ℕ) → o.tasks i ≡ peeking p → IsSound (peek p i held o)
  unfolding peek
  peek-IsSound p none e = goes-IsSound (entering p) refl refl (rw e refl) (rw e refl)
  peek-IsSound h3 (some c) e = goes-IsSound (sending c) refl refl (rw e refl) (rw e refl)
  peek-IsSound h2 (some c) e = goes-IsSound (checking c) refl refl (rw e refl) (rw e refl)

  pub enter-IsSound :
      (p : Protocol) (held : Option ℕ)
      → (slot_of p o).held ≡ held
      → (slot_of p o).lock ≡ none
      → o.tasks i ≡ entering p
      → IsSound (enter p i held o)
  unfolding enter
  enter-IsSound h3 none n free e = record {
    over_3 = lock_for-IsGuarded h3 i (dialing h3) o.slot_3 o.tasks g.over_3 free refl (λ k. n);
    over_2 = stays_out h2 i (dialing h3) o.slot_2 o.tasks refl (rw e refl) g.over_2;
    kept = g.kept;
  }
  enter-IsSound h2 none n free e = record {
    over_3 = stays_out h3 i (dialing h2) o.slot_3 o.tasks refl (rw e refl) g.over_3;
    over_2 = lock_for-IsGuarded h2 i (dialing h2) o.slot_2 o.tasks g.over_2 free refl (λ k. n);
    kept = g.kept;
  }
  enter-IsSound p (some c) n free e = goes-IsSound (peeking p) refl refl (rw e refl) (rw e refl)

  pub dialled-IsSound :
      (p : Protocol) (verdict : Bool) → o.tasks i ≡ dialing p → IsSound (dialled p i verdict o)
  unfolding dialled
  dialled-IsSound h3 true e = record {
    over_3 = fill-IsGuarded h3 i _ o.slot_3 o.tasks g.over_3 (rw e refl) refl;
    over_2 = stays_out h2 i _ o.slot_2 o.tasks refl (rw e refl) g.over_2;
    kept = g.kept;
  }
  dialled-IsSound h3 false e = record {
    over_3 =
        stays-IsGuarded h3 i crossing o.slot_3 o.tasks g.over_3 (rw e refl)
          (λ k. g.over_3.fills i (rw e refl));
    over_2 = stays_out h2 i crossing o.slot_2 o.tasks refl (rw e refl) g.over_2;
    kept = g.kept;
  }
  dialled-IsSound h2 true e = record {
    over_3 = stays_out h3 i _ o.slot_3 o.tasks refl (rw e refl) g.over_3;
    over_2 = fill-IsGuarded h2 i _ o.slot_2 o.tasks g.over_2 (rw e refl) refl;
    kept = g.kept;
  }
  dialled-IsSound h2 false e = record {
    over_3 = stays_out h3 i failed o.slot_3 o.tasks refl (rw e refl) g.over_3;
    over_2 =
        release-IsGuarded h2 i failed o.slot_2 o.tasks g.over_2 o.slot_2.held (rw e refl) refl
          g.over_2.empty;
    kept = g.kept;
  }

  pub cross-IsSound :
      (held : Option ℕ)
      → o.slot_2.held ≡ held
      → o.slot_2.lock ≡ none
      → o.tasks i ≡ crossing
      → IsSound (cross i held o)
  unfolding cross
  cross-IsSound none n free e = record {
    over_3 =
        stays-IsGuarded h3 i dialing_under_both o.slot_3 o.tasks g.over_3 (rw e refl)
          (λ k. g.over_3.fills i (rw e refl));
    over_2 =
        lock_for-IsGuarded h2 i dialing_under_both o.slot_2 o.tasks g.over_2 free refl (λ k. n);
    kept = g.kept;
  }
  cross-IsSound (some c) n free e = record {
    over_3 =
        release-IsGuarded h3 i _ o.slot_3 o.tasks g.over_3 o.slot_3.held (rw e refl) refl
          g.over_3.empty;
    over_2 = stays_out h2 i _ o.slot_2 o.tasks refl (rw e refl) g.over_2;
    kept = g.kept;
  }

  pub dialled_under_both-IsSound :
      (verdict : Bool) → o.tasks i ≡ dialing_under_both → IsSound (dialled_under_both i verdict o)
  unfolding dialled_under_both
  dialled_under_both-IsSound true e = record {
    over_3 =
        release-IsGuarded h3 i _ o.slot_3 o.tasks g.over_3 o.slot_3.held (rw e refl) refl
          g.over_3.empty;
    over_2 = fill-IsGuarded h2 i _ o.slot_2 o.tasks g.over_2 (rw e refl) refl;
    kept = g.kept;
  }
  dialled_under_both-IsSound false e = record {
    over_3 =
        release-IsGuarded h3 i _ o.slot_3 o.tasks g.over_3 o.slot_3.held (rw e refl) refl
          g.over_3.empty;
    over_2 =
        release-IsGuarded h2 i _ o.slot_2 o.tasks g.over_2 o.slot_2.held (rw e refl) refl
          g.over_2.empty;
    kept = g.kept;
  }

  pub retry-IsSound :
      (held : Option ℕ)
      → o.slot_2.held ≡ held
      → o.slot_2.lock ≡ none
      → o.tasks i ≡ retrying
      → IsSound (retry i held o)
  unfolding retry
  retry-IsSound none n free e = record {
    over_3 = stays_out h3 i _ o.slot_3 o.tasks refl (rw e refl) g.over_3;
    over_2 = lock_for-IsGuarded h2 i _ o.slot_2 o.tasks g.over_2 free refl (λ k. n);
    kept = g.kept;
  }
  retry-IsSound (some c) n free e = record {
    over_3 = stays_out h3 i _ o.slot_3 o.tasks refl (rw e refl) g.over_3;
    over_2 = lock_for-IsGuarded h2 i _ o.slot_2 o.tasks g.over_2 free refl (λ k. absurd (cc));
    kept = g.kept;
  }

  pub clear-IsSound : o.tasks i ≡ clearing → IsSound (clear i o)
  unfolding clear
  clear-IsSound e = record {
    over_3 = stays_out h3 i _ o.slot_3 o.tasks refl (rw e refl) g.over_3;
    over_2 = withdraw-IsGuarded h2 i _ o.slot_2 o.tasks g.over_2 none (rw e refl);
    kept = g.kept;
  }

  pub rechecked-IsSound :
      (c : ℕ) (verdict : Bool) → o.tasks i ≡ rechecking c → IsSound (rechecked i c verdict o)
  unfolding rechecked
  rechecked-IsSound c true e = record {
    over_3 = stays_out h3 i _ o.slot_3 o.tasks refl (rw e refl) g.over_3;
    over_2 =
        refill-IsGuarded h2 i _ o.slot_2 o.tasks g.over_2 (some c) (rw e refl) (λ k. absurd (cc))
          (λ k. absurd (cc));
    kept = g.kept;
  }
  rechecked-IsSound c false e = record {
    over_3 = stays_out h3 i _ o.slot_3 o.tasks refl (rw e refl) g.over_3;
    over_2 = withdraw-IsGuarded h2 i _ o.slot_2 o.tasks g.over_2 o.slot_2.held (rw e refl);
    kept = g.kept;
  }

  pub redialled-IsSound : (verdict : Bool) → o.tasks i ≡ redialing → IsSound (redialled i verdict o)
  unfolding redialled
  redialled-IsSound true e = record {
    over_3 = stays_out h3 i _ o.slot_3 o.tasks refl (rw e refl) g.over_3;
    over_2 = keep-IsGuarded h2 i _ o.slot_2 o.tasks g.over_2 (rw e refl) refl refl;
    kept = g.kept;
  }
  redialled-IsSound false e = record {
    over_3 = stays_out h3 i _ o.slot_3 o.tasks refl (rw e refl) g.over_3;
    over_2 =
        release-IsGuarded h2 i failed o.slot_2 o.tasks g.over_2 o.slot_2.held (rw e refl) refl
          g.over_2.empty;
    kept = g.kept;
  }

  pub resent-IsSound :
      (c : ℕ) (verdict : Bool) → o.tasks i ≡ resending c → IsSound (resent i c verdict o)
  unfolding resent
  resent-IsSound c verdict e =
      let t : Task = if verdict then done h2 c else failed in
      record {
        over_3 = stays_out h3 i t o.slot_3 o.tasks (ground arith) (rw e refl) g.over_3;
        over_2 =
            release-IsGuarded h2 i t o.slot_2 o.tasks g.over_2 o.slot_2.held (rw e refl)
              (ground arith) g.over_2.empty;
        kept = g.kept;
      }
