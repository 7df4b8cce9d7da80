-- ===== src/Utf8/Laws.antt =====
-- `String::from_utf8` undoes `as_bytes`.
use Prim.Native.Char.{Char, char, code}
use Prim.Native.Nat.{Ordering, compare}
use quik.Base.{
  ltb→lt, ℕ, ◌<◌, ltb, String, none, some, as_bytes, codes, ◌≡◌, refl, ◌∙◌, ap, inl, inr,
}
use quik.Effect.{ok}
use quik.Utf8.{push, scan, text_of, from_utf8, Valid, validate}
use quik.Utf8.Reading.{IsSpelling, IsScalar, utf8-IsSpelling}

less : (a b : ℕ) → compare a b ≡ Ordering.lt → a < b
less a b h = ltb→lt a b (rw (ltb, h) refl)

code_bounds :
    (n : ℕ) (o p q : Ordering)
    → compare n 55296 ≡ o
    → compare 57343 n ≡ p
    → compare n 1114112 ≡ q
    → Valid o p q
    → IsScalar n
unfolding IsScalar
code_bounds n Ordering.lt p q e f g s = inl (less n 55296 e)
code_bounds n Ordering.eq Ordering.lt Ordering.lt e f g s = inr (less 57343 n f, less n 1114112 g)
code_bounds n Ordering.gt Ordering.lt Ordering.lt e f g s = inr (less 57343 n f, less n 1114112 g)
code_bounds n Ordering.eq Ordering.lt Ordering.eq e f g s = absurd s
code_bounds n Ordering.eq Ordering.lt Ordering.gt e f g s = absurd s
code_bounds n Ordering.eq Ordering.eq q e f g s = absurd s
code_bounds n Ordering.eq Ordering.gt q e f g s = absurd s
code_bounds n Ordering.gt Ordering.lt Ordering.eq e f g s = absurd s
code_bounds n Ordering.gt Ordering.lt Ordering.gt e f g s = absurd s
code_bounds n Ordering.gt Ordering.eq q e f g s = absurd s
code_bounds n Ordering.gt Ordering.gt q e f g s = absurd s

Char-IsScalar : (c : Char) → IsScalar (code c)
Char-IsScalar (char n s) = code_bounds n _ _ _ refl refl refl s

scan-as_bytes : (s : String) (at : ℕ) → scan none at (as_bytes s) ≡ ok (codes s)
unfolding as_bytes IsSpelling scan
scan-as_bytes String.[] at = refl
scan-as_bytes (String.◌∷◌ c s) at =
    let (at', e) = utf8-IsSpelling (code c) (Char-IsScalar c) at (as_bytes s) in
    e ∙ ap (push (code c)) (scan-as_bytes s at')

validate-some : (o p q : Ordering) (s : Valid o p q) → validate o p q ≡ some s
validate-some Ordering.lt p q s = refl
validate-some Ordering.eq Ordering.lt Ordering.lt s = refl
validate-some Ordering.gt Ordering.lt Ordering.lt s = refl
validate-some Ordering.eq Ordering.lt Ordering.eq s = absurd s
validate-some Ordering.eq Ordering.lt Ordering.gt s = absurd s
validate-some Ordering.eq Ordering.eq q s = absurd s
validate-some Ordering.eq Ordering.gt q s = absurd s
validate-some Ordering.gt Ordering.lt Ordering.eq s = absurd s
validate-some Ordering.gt Ordering.lt Ordering.gt s = absurd s
validate-some Ordering.gt Ordering.eq q s = absurd s
validate-some Ordering.gt Ordering.gt q s = absurd s

text_of-codes : (s : String) → text_of (codes s) ≡ s
unfolding text_of
text_of-codes String.[] = refl
text_of-codes (String.◌∷◌ (char n p) s) =
    rw (text_of, validate-some _ _ _ p) (ap (String.◌∷◌ (char n p)) (text_of-codes s))

-- The bytes of a text are read as that text.
pub from_utf8-as_bytes : (s : String) → from_utf8 (as_bytes s) ≡ ok s
unfolding from_utf8
from_utf8-as_bytes s = rw (from_utf8, scan-as_bytes s 0) (ap ok (text_of-codes s))
