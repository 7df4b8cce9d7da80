-- ===== src/Effect.antt =====
-- Calls that change a state and may fail. The state comes back beside a failure too: what was
-- written before an early return stays written.
pub mod Kept
use quik.Base.{Option, none, some, ◌≡◌, refl, ◌≢◌, ◌⊎◌, inl, inr}
use quik.Failure.{Error, Failure, error}

-- `std::result::Result`.
pub data Result {ℓ} (E A : Type ℓ) : Type ℓ where
  ok : A → Result E A
  err : E → Result E A

abbrev pub Effect : Type 0 → Type 0 → Type 0 → Type 0
Effect S X A = S → Result (Failure X) A × S

abbrev pub pure : {S X A : Type 0} → A → Effect S X A
pure a s = (ok a, s)

abbrev pub fail : {S X A : Type 0} → Failure X → Effect S X A
fail e s = (err e, s)

-- `return Err(e)`.
abbrev pub raise : {S X A : Type 0} → Error X → Effect S X A
raise e s = (err (error e), s)

abbrev pub continue :
    {S X A B : Type 0} → Result (Failure X) A × S → (A → Effect S X B) → Result (Failure X) B × S
continue (ok a, s) f = f a s
continue (err e, s) f = (err e, s)

infixl 5 ◌>>=◌ ◌>>◌
abbrev pub ◌>>=◌ : {S X A B : Type 0} → Effect S X A → (A → Effect S X B) → Effect S X B
◌>>=◌ m f s = continue (m s) f

abbrev pub ◌>>◌ : {S X A B : Type 0} → Effect S X A → Effect S X B → Effect S X B
◌>>◌ m k s = continue (m s) (λ _. k)

-- `match m { Ok(a) => f(a), Err(e) => g(e) }`: a panic is not caught.
abbrev pub settle :
    {S X A B : Type 0}
    → Result (Failure X) A × S
    → (A → Effect S X B)
    → (Error X → Effect S X B)
    → Result (Failure X) B × S
settle (ok a, s) f g = f a s
settle (err (error e), s) f g = g e s
settle (err Failure.panicked, s) f g = (err Failure.panicked, s)
settle (err Failure.out_of_fuel, s) f g = (err Failure.out_of_fuel, s)

abbrev pub attempt :
    {S X A B : Type 0} → Effect S X A → (A → Effect S X B) → (Error X → Effect S X B) → Effect S X B
attempt m f g s = settle (m s) f g

-- `result.map_err(wrap)?`.
abbrev pub lift : {S X E A : Type 0} → (E → Error X) → Result E A → Effect S X A
lift wrap (ok a) s = (ok a, s)
lift wrap (err e) s = (err (error (wrap e)), s)

-- `option.ok_or(e)?`.
abbrev pub some_or : {S X A : Type 0} → Error X → Option A → Effect S X A
some_or e none s = (err (error e), s)
some_or e (some a) s = (ok a, s)

-- `match option { None => m, Some(a) => f(a) }`.
abbrev pub case_option :
    {S X A B : Type 0} → Option B → Effect S X A → (B → Effect S X A) → Effect S X A
case_option none m f s = m s
case_option (some b) m f s = f b s

abbrev pub gets : {S X A : Type 0} → (S → A) → Effect S X A
gets f s = (ok (f s), s)

abbrev pub modify : {S X : Type 0} → (S → S) → Effect S X (Unit {0})
modify f s = (ok tt, f s)

-- To split on what a call answers and keep the equation.
pub Call-cases :
    {S E A : Type 0} (r : Result E A × S)
    → ((e : E) × (s : S) × (r ≡ (err e, s))) ⊎ ((a : A) × (s : S) × (r ≡ (ok a, s)))
Call-cases (ok a, s) = inr (a, s, refl)
Call-cases (err e, s) = inl (e, s, refl)

pub Result-cases :
    {E A : Type 0} (r : Result E A) → ((e : E) × (r ≡ err e)) ⊎ ((a : A) × (r ≡ ok a))
Result-cases (ok a) = inr (a, refl)
Result-cases (err e) = inl (e, refl)

-- A run that ended by itself, in a value, an error or a panic.
module _ {S X A : Type 0} where
  pub record Ended (r : Result (Failure X) A × S) : Type 0 where
    pub has_ended : r.0 ≢ err Failure.out_of_fuel

module _ {S X A B : Type 0} where
  pub Ended-continue :
      (r : Result (Failure X) A × S) (f : A → Effect S X B)
      → Ended r
      → ((a : A) (s : S) → Ended (f a s))
      → Ended (continue r f)
  Ended-continue (ok a, s) f h k = k a s
  Ended-continue (err e, s) f h k = record { has_ended = λ q. h.has_ended (cc) }

  pub Ended-settle :
      (r : Result (Failure X) A × S) (f : A → Effect S X B) (g : Error X → Effect S X B)
      → Ended r
      → ((a : A) (s : S) → Ended (f a s))
      → ((e : Error X) (s : S) → Ended (g e s))
      → Ended (settle r f g)
  Ended-settle (ok a, s) f g h k m = k a s
  Ended-settle (err (error e), s) f g h k m = m e s
  Ended-settle (err Failure.panicked, s) f g h k m = record { has_ended = λ q. cc }
  Ended-settle (err Failure.out_of_fuel, s) f g h k m = absurd (h.has_ended refl)
