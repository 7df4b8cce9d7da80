-- ===== src/Utf8.antt =====
-- `String::from_utf8` of the standard library, and the texts of its errors.
pub mod Reading
pub mod Laws
pub mod Tests
use Prim.Native.Char.{Char, char, IsLt}
use Prim.Native.Nat.{Ordering, compare}
use Prim.Native.String
use quik.Base.{
  ℕ, suc, ◌+◌, ◌*◌, ◌-◌, ◌==◌, ltb, leb, String, Bool, true, false, ◌&&◌, Option, none, some, List,
  [], ◌∷◌, if◌then◌else◌, format, decimal,
}
use quik.Effect.{Result, ok, err}

-- `Utf8Error`: where the text stops being valid, and how many bytes are wrong there; none if it only
-- ends too early.
pub record Utf8Error : Type 0 where
  pub valid_up_to : ℕ
  pub error_len : Option ℕ

-- A code point whose bytes have not all come: how many more, between which bounds the next lies, and
-- what those that came make together.
pub record Partial : Type 0 where
  pub missing : ℕ
  pub low : ℕ
  pub high : ℕ
  pub bits : ℕ
  pub taken : ℕ

pub data Progress : Type 0 where
  wrong : Progress
  whole : ℕ → Progress
  partial : Partial → Progress

abbrev pub opening : ℕ → ℕ → ℕ → ℕ → Progress
opening missing low high bits =
    partial (record { missing = missing; low = low; high = high; bits = bits; taken = 1 })

-- The first byte of a code point.
unfoldable pub lead : ℕ → Progress
lead b =
    if ltb b 0x80
    then whole b
    else if leb 0xC2 b && leb b 0xDF
    then opening 1 0x80 0xBF (b - 0xC0)
    else if b == 0xE0
    then opening 2 0xA0 0xBF 0
    else if b == 0xED
    then opening 2 0x80 0x9F 13
    else if leb 0xE1 b && leb b 0xEF
    then opening 2 0x80 0xBF (b - 0xE0)
    else if b == 0xF0
    then opening 3 0x90 0xBF 0
    else if leb 0xF1 b && leb b 0xF3
    then opening 3 0x80 0xBF (b - 0xF0)
    else if b == 0xF4
    then opening 3 0x80 0x8F 4
    else wrong

-- A further byte.
unfoldable pub follow : Partial → ℕ → Progress
follow p b =
    if leb p.low b && leb b p.high
    then if p.missing == 1
      then whole (p.bits * 64 + (b - 0x80))
      else partial (record {
        missing = p.missing - 1;
        low = 0x80;
        high = 0xBF;
        bits = p.bits * 64 + (b - 0x80);
        taken = suc p.taken;
      })
    else wrong

abbrev pub push : ℕ → Result Utf8Error (List ℕ) → Result Utf8Error (List ℕ)
push c (ok codes) = ok (c ∷ codes)
push c (err e) = err e

abbrev pub stops : ℕ → Option ℕ → Result Utf8Error (List ℕ)
stops at error_len = err (record { valid_up_to = at; error_len = error_len })

-- The code points of bytes, of which the current one begins at an index.
unfoldable pub scan : Option Partial → ℕ → List ℕ → Result Utf8Error (List ℕ)
unfolding lead follow
scan none at [] = ok []
scan none at (b ∷ bytes) = elim (lead b) [
  | wrong ↦ stops at (some 1)
  | whole c ↦ push c (scan none (at + 1) bytes)
  | partial p ↦ scan (some p) at bytes
]
scan (some p) at [] = stops at none
scan (some p) at (b ∷ bytes) = elim (follow p b) [
  | wrong ↦ stops at (some p.taken)
  | whole c ↦ push c (scan none (at + p.taken + 1) bytes)
  | partial p' ↦ scan (some p') at bytes
]

-- To be a scalar value, in the words of the three comparisons.
abbrev pub Both : Ordering → Ordering → Type 0
Both Ordering.lt o = IsLt o
Both Ordering.eq o = ⊥
Both Ordering.gt o = ⊥

abbrev pub Valid : Ordering → Ordering → Ordering → Type 0
Valid Ordering.lt o p = Unit
Valid Ordering.eq o p = Both o p
Valid Ordering.gt o p = Both o p

abbrev pub validate_both : (o p : Ordering) → Option (Both o p)
validate_both Ordering.lt Ordering.lt = some tt
validate_both Ordering.lt Ordering.eq = none
validate_both Ordering.lt Ordering.gt = none
validate_both Ordering.eq p = none
validate_both Ordering.gt p = none

abbrev pub validate : (o p q : Ordering) → Option (Valid o p q)
validate Ordering.lt p q = some tt
validate Ordering.eq p q = validate_both p q
validate Ordering.gt p q = validate_both p q

-- The text of code points; what is no scalar value is passed over.
unfoldable pub text_of : List ℕ → String
text_of [] = ""
text_of (n ∷ codes) = elim (validate (compare n 55296) (compare 57343 n) (compare n 1114112)) [
  | none ↦ text_of codes
  | some s ↦ String.◌∷◌ (char n s) (text_of codes)
]

unfoldable pub from_utf8 : List ℕ → Result Utf8Error String
unfolding scan text_of
from_utf8 bytes = elim (scan none 0 bytes) [ err e ↦ err e | ok codes ↦ ok (text_of codes) ]

-- `to_string` of the error.
unfoldable pub utf8_message : Utf8Error → String
utf8_message e = elim e.error_len [
  | none ↦ format ("incomplete utf-8 byte sequence from index " ∷ decimal 20 e.valid_up_to "" ∷ [])
  | some n ↦ format (
      "invalid utf-8 sequence of "
      ∷ decimal 20 n ""
      ∷ " bytes from index "
      ∷ decimal 20 e.valid_up_to ""
      ∷ [])
]
