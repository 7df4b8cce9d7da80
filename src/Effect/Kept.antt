-- ===== src/Effect/Kept.antt =====
-- A property of the state that a run keeps, whatever it answers: one rule for each way to compose.
use quik.Base.{Bool, true, false, Option, none, some, if◌then◌else◌}
use quik.Failure.{Error, Failure}
use quik.Effect.{Result, ok, err, Effect, continue, lift, some_or, case_option}

module _ {S : Type 0} (P : S → Type 0) where
  pub record Kept {X A : Type 0} (r : Result (Failure X) A × S) : Type 0 where
    pub kept : P r.1

  module _ {X A : Type 0} where
    pub Kept-state : (r : Result (Failure X) A) (s : S) → P s → Kept (r, s)
    Kept-state r s p = record { kept = p }

    pub Kept-if :
        (b : Bool) (m k : Effect S X A) (s : S)
        → P s
        → ((t : S) → P t → Kept (m t))
        → ((t : S) → P t → Kept (k t))
        → Kept ((if b then m else k) s)
    Kept-if true m k s p f g = f s p
    Kept-if false m k s p f g = g s p

    pub Kept-lift :
        {E : Type 0} (wrap : E → Error X) (r : Result E A) (s : S) → P s → Kept (lift wrap r s)
    Kept-lift wrap (ok a) s p = record { kept = p }
    Kept-lift wrap (err e) s p = record { kept = p }

    pub Kept-some_or : (e : Error X) (o : Option A) (s : S) → P s → Kept (some_or e o s)
    Kept-some_or e none s p = record { kept = p }
    Kept-some_or e (some a) s p = record { kept = p }

  module _ {X A B : Type 0} where
    pub Kept-continue :
        (r : Result (Failure X) A × S) (f : A → Effect S X B)
        → Kept r
        → ((a : A) (s : S) → P s → Kept (f a s))
        → Kept (continue r f)
    Kept-continue (ok a, s) f h k = k a s h.kept
    Kept-continue (err e, s) f h k = record { kept = h.kept }

    pub Kept-case_option :
        (o : Option B) (m : Effect S X A) (f : B → Effect S X A) (s : S)
        → P s
        → ((t : S) → P t → Kept (m t))
        → ((b : B) (t : S) → P t → Kept (f b t))
        → Kept (case_option o m f s)
    Kept-case_option none m f s p g h = g s p
    Kept-case_option (some b) m f s p g h = h b s p
