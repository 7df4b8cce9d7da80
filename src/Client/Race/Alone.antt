-- ===== src/Client/Race/Alone.antt =====
-- src/client/pool.rs: a call that takes a connection alone, in the model of one call at a time, is a
-- run of its task in the model of many.
use quik.Base.{ℕ, Bool, true, false, none, some, is_some, ◌≡◌, sym, subst}
use quik.Failure.{Failure, error, panicked, out_of_fuel}
use quik.Effect.{Result, ok, err}
use quik.Externals.{Externals}
use quik.Client.{PooledConnection, http2, http3, is_http3, Client}
use quik.Client.Race.{
  Protocol, h2, Task, sending, done, failed, Origin, slot_of, unless_locked, step, cancel, turn,
}
use quik.Client.Race.Shown.{Site, Shows}

-- The task has some turns, and is dropped in none of them unless it may be.
pub data Turns (i : ℕ) (may_drop : Bool) : Origin → Origin → Type 0 where
  stay : {o : Origin} → Turns i may_drop o o
  move :
      {o end : Origin} (verdict : Bool)
      → Turns i may_drop (turn (i, some verdict) o) end
      → Turns i may_drop o end
  drop :
      {o end : Origin}
      → may_drop ≡ true
      → Turns i may_drop (turn (i, none) o) end
      → Turns i may_drop o end

module _ (x : Externals) where
  open x use {Foreign}

  -- Where the task is, with what `acquire` answers.
  abbrev pub Outcome : Result (Failure Foreign) (PooledConnection x) → Task → Type 0
  Outcome (ok (http2 conn)) t = (n : ℕ) × (t ≡ done h2 n)
  Outcome (ok (http3 session)) t = (n : ℕ) × (t ≡ sending n)
  Outcome (err f) t = t ≡ failed

  -- A panic, or fuel that ran out: no error of the crate.
  abbrev pub is_abort : {A : Type 0} → Result (Failure Foreign) A → Bool
  is_abort (ok a) = false
  is_abort (err (error e)) = false
  is_abort (err panicked) = true
  is_abort (err out_of_fuel) = true

  pub outcome_2 :
      (conn : PooledConnection x) (t : Task) (n : ℕ)
      → is_http3 x conn ≡ false
      → t ≡ done h2 n
      → Outcome (ok conn) t
  outcome_2 (http2 conn) t n kind e = (n, e)
  outcome_2 (http3 session) t n kind e = absurd (cc)

  pub outcome_3 :
      (conn : PooledConnection x) (t : Task) (n : ℕ)
      → is_http3 x conn ≡ true
      → t ≡ sending n
      → Outcome (ok conn) t
  outcome_3 (http2 conn) t n kind e = absurd (cc)
  outcome_3 (http3 session) t n kind e = (n, e)

module _ (x : Externals) (site : Site) (i : ℕ) where
  open x use {Foreign}
  open site use {proxy, host, port, bound}

  -- The slots of the origin are filled as those of the client.
  abbrev pub Alike : Origin → Client x → Type 0
  Alike o c = Shows x site (is_some o.slot_3.held) (is_some o.slot_2.held) c

  -- By some turns the task comes where the answer says, both locks are free, and the slots are
  -- filled as those of the client.
  pub record IsRun (o : Origin) (r : Result (Failure Foreign) (PooledConnection x) × Client x)
      : Type 0 where
    pub end : Origin
    pub turns : Turns i (is_abort x r.0) o end
    pub alike : Alike end r.1
    pub idle_3 : end.slot_3.lock ≡ none
    pub idle_2 : end.slot_2.lock ≡ none
    pub outcome : Outcome x r.0 (end.tasks i)

  module _ (r : Result (Failure Foreign) (PooledConnection x) × Client x) where
    by_turns :
        (o o' : Origin)
        → ((end : Origin) → Turns i (is_abort x r.0) o' end → Turns i (is_abort x r.0) o end)
        → IsRun o' r
        → IsRun o r
    by_turns o o' f s = record {
      end = s.end;
      turns = f s.end s.turns;
      alike = s.alike;
      idle_3 = s.idle_3;
      idle_2 = s.idle_2;
      outcome = s.outcome;
    }

    pub by_step :
        (t : Task) (verdict : Bool) (o : Origin)
        → o.tasks i ≡ t
        → IsRun (step t i verdict o) r
        → IsRun o r
    unfolding turn
    by_step t verdict o e s =
        by_turns o _ (λ end. move verdict) (subst (λ t. IsRun (step t i verdict o) r) (sym e) s)

    pub by_drop :
        (t : Task) (o : Origin)
        → is_abort x r.0 ≡ true
        → o.tasks i ≡ t
        → IsRun (cancel t i o) r
        → IsRun o r
    unfolding turn
    by_drop t o may e s =
        by_turns o _ (λ end. drop may) (subst (λ t. IsRun (cancel t i o) r) (sym e) s)

    pub through :
        (p : Protocol) (f : Origin → Origin) (o : Origin)
        → (slot_of p o).lock ≡ none
        → IsRun (f o) r
        → IsRun (unless_locked p f o) r
    through p f o free s = rw free s

    pub stops :
        (o : Origin)
        → Alike o r.1
        → o.slot_3.lock ≡ none
        → o.slot_2.lock ≡ none
        → Outcome x r.0 (o.tasks i)
        → IsRun o r
    stops o a own free e = record {
      end = o;
      turns = stay;
      alike = a;
      idle_3 = own;
      idle_2 = free;
      outcome = e;
    }
