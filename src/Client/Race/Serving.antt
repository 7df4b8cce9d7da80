-- ===== src/Client/Race/Serving.antt =====
-- src/client/pool.rs: what it is for a task alone to serve a request.
use quik.Base.{ℕ, Bool, true, false, none, ◌≡◌, refl, sym, subst}
use quik.Failure.{Failure, error, panicked, out_of_fuel}
use quik.Effect.{Result, ok, err, continue}
use quik.Externals.{Externals}
use quik.Response.{Response}
use quik.Client.{PooledConnection, Client, Act}
use quik.Client.Race.{Protocol, Task, done, failed, Origin, step, cancel, turn, is_ended}
use quik.Client.Race.Shown.{Site, Shows}
use quik.Client.Race.Alone.{Turns, stay, move, drop, is_abort, Outcome, IsRun, Alike}

append :
    {i : ℕ} {b : Bool} {o o' end : Origin} → Turns i b o o' → Turns i b o' end → Turns i b o end
append stay t = t
append (move verdict s) t = move verdict (append s t)
append (drop e s) t = drop e (append s t)

weaken : {i : ℕ} {b : Bool} {o end : Origin} → Turns i false o end → Turns i b o end
weaken stay = stay
weaken (move verdict s) = move verdict (weaken s)
weaken (drop e s) = absurd (cc)

module _ (x : Externals) (site : Site) (i : ℕ) where
  open x use {Foreign}
  open site use {proxy, host, port, bound}

  -- By some turns the task ends, in `done` if there is an answer; both locks are free, and the slots
  -- are filled as those of the client.
  pub record Serves {A : Type 0} (o : Origin) (r : Result (Failure Foreign) A × Client x)
      : Type 0 where
    pub end : Origin
    pub turns : Turns i (is_abort x r.0) o end
    pub alike : Alike x site i end r.1
    pub idle_3 : end.slot_3.lock ≡ none
    pub idle_2 : end.slot_2.lock ≡ none
    pub ended : is_ended (end.tasks i) ≡ true
    pub answered :
        (answer : A) → r.0 ≡ ok answer → (p : Protocol) × (n : ℕ) × (end.tasks i ≡ done p n)

  -- The rest of a run.
  later :
      (r : Result (Failure Foreign) (Response x) × Client x) (o o' : Origin)
      → ((end : Origin) → Turns i (is_abort x r.0) o' end → Turns i (is_abort x r.0) o end)
      → Serves o' r
      → Serves o r
  later r o o' f s = record {
    end = s.end;
    turns = f s.end s.turns;
    alike = s.alike;
    idle_3 = s.idle_3;
    idle_2 = s.idle_2;
    ended = s.ended;
    answered = s.answered;
  }

  pub record Ready (o : Origin) (c : Client x) : Type 0 where
    pub alike : Alike x site i o c
    pub idle_3 : o.slot_3.lock ≡ none
    pub idle_2 : o.slot_2.lock ≡ none

  pub gives_up :
      (f : Failure Foreign) (c : Client x) (o : Origin)
      → Ready o c
      → o.tasks i ≡ failed
      → Serves {A = Response x} o (err f, c)
  gives_up f c o a e = record {
    end = o;
    turns = stay;
    alike = a.alike;
    idle_3 = a.idle_3;
    idle_2 = a.idle_2;
    ended = rw e refl;
    answered = λ response q. absurd (cc);
  }

  pub arrives :
      (r : Result (Failure Foreign) (Response x) × Client x) (p : Protocol) (n : ℕ) (o : Origin)
      → Ready o r.1
      → o.tasks i ≡ done p n
      → Serves o r
  arrives r p n o a e = record {
    end = o;
    turns = stay;
    alike = a.alike;
    idle_3 = a.idle_3;
    idle_2 = a.idle_2;
    ended = rw e refl;
    answered = λ response q. (p, n, e);
  }

  -- What follows a run that answers a connection.
  pub then-Serves :
      (r : Result (Failure Foreign) (PooledConnection x) × Client x) (o : Origin)
      (f : PooledConnection x → Act x (Response x))
      → IsRun x site i o r
      → ((conn : PooledConnection x) (c : Client x) (o : Origin)
          → Ready o c
          → Outcome x (ok conn) (o.tasks i)
          → Serves o (f conn c))
      → Serves o (continue r f)
  then-Serves (ok conn, c) o f s k =
      later _ o s.end (λ end t. append (weaken s.turns) t)
        (k conn c s.end (record { alike = s.alike; idle_3 = s.idle_3; idle_2 = s.idle_2 })
          s.outcome)
  then-Serves (err (error e), c) o f s k =
      later _ o s.end (λ end t. append s.turns t)
        (gives_up _ c s.end (record { alike = s.alike; idle_3 = s.idle_3; idle_2 = s.idle_2 })
          s.outcome)
  then-Serves (err panicked, c) o f s k =
      later _ o s.end (λ end t. append s.turns t)
        (gives_up _ c s.end (record { alike = s.alike; idle_3 = s.idle_3; idle_2 = s.idle_2 })
          s.outcome)
  then-Serves (err out_of_fuel, c) o f s k =
      later _ o s.end (λ end t. append s.turns t)
        (gives_up _ c s.end (record { alike = s.alike; idle_3 = s.idle_3; idle_2 = s.idle_2 })
          s.outcome)

  pub by_step :
      (r : Result (Failure Foreign) (Response x) × Client x) (t : Task) (verdict : Bool)
      (o : Origin)
      → o.tasks i ≡ t
      → Serves (step t i verdict o) r
      → Serves o r
  unfolding turn
  by_step r t verdict o e s =
      later r o _ (λ end. move verdict) (subst (λ t. Serves (step t i verdict o) r) (sym e) s)

  pub by_drop :
      (r : Result (Failure Foreign) (Response x) × Client x) (t : Task) (o : Origin)
      → is_abort x r.0 ≡ true
      → o.tasks i ≡ t
      → Serves (cancel t i o) r
      → Serves o r
  unfolding turn
  by_drop r t o may e s =
      later r o _ (λ end. drop may) (subst (λ t. Serves (cancel t i o) r) (sym e) s)

  -- What follows the answer, where it keeps the slots as they are.
  pub then_keeps :
      {A B : Type 0} (r : Result (Failure Foreign) A × Client x) (o : Origin) (f : A → Act x B)
      → Serves o r
      → ((answer : A) (c : Client x) (a b : Bool)
          → Shows x site a b c
          → Shows x site a b (f answer c).1)
      → Serves o (continue r f)
  then_keeps (ok answer, c) o f s k = record {
    end = s.end;
    turns = weaken s.turns;
    alike = k answer c _ _ s.alike;
    idle_3 = s.idle_3;
    idle_2 = s.idle_2;
    ended = s.ended;
    answered = λ b q. s.answered answer refl;
  }
  then_keeps (err (error e), c) o f s k = record {
    end = s.end;
    turns = s.turns;
    alike = s.alike;
    idle_3 = s.idle_3;
    idle_2 = s.idle_2;
    ended = s.ended;
    answered = λ b q. absurd (cc);
  }
  then_keeps (err panicked, c) o f s k = record {
    end = s.end;
    turns = s.turns;
    alike = s.alike;
    idle_3 = s.idle_3;
    idle_2 = s.idle_2;
    ended = s.ended;
    answered = λ b q. absurd (cc);
  }
  then_keeps (err out_of_fuel, c) o f s k = record {
    end = s.end;
    turns = s.turns;
    alike = s.alike;
    idle_3 = s.idle_3;
    idle_2 = s.idle_2;
    ended = s.ended;
    answered = λ b q. absurd (cc);
  }
