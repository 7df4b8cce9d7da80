-- ===== src/Base/Text.antt =====
-- Texts of the standard library: `to_string` of a u16, `contains`, and the code points of a text.
use Prim.Native.Nat.{ℕ, zero, suc, ◌/◌, ◌%◌}
use Prim.Native.Char.{Char, code}
use Prim.Native.String
use Prim.Native.String.{String}
use mathlib.Core.Path.{◌≡◌, refl}
use mathlib.Core.Bool.{Bool}
use mathlib.Core.List.{List, [], ◌∷◌}
use text.Mathlib.Text.{find?}
use quik.Base.Tests.{ltb, ◌==◌, if◌then◌else◌, is_some}

abbrev pub digit : ℕ → Char
digit d =
    if d == 0
    then "0"
    else if d == 1
    then "1"
    else if d == 2
    then "2"
    else if d == 3
    then "3"
    else if d == 4
    then "4"
    else if d == 5
    then "5"
    else if d == 6
    then "6"
    else if d == 7
    then "7"
    else if d == 8
    then "8"
    else "9"

-- The digits of a number in front of a text, the lowest first to be written.
unfoldable pub decimal : ℕ → ℕ → String → String
decimal zero n tail = tail
decimal (suc places) n tail =
    let written = String.◌∷◌ (digit (n % 10)) tail in
    let rest = decimal places (n / 10) written in if ltb n 10 then written else rest

-- A u16 has five digits at most.
unfoldable pub u16_to_string : ℕ → String
unfolding decimal
u16_to_string n = decimal 5 n ""

-- `str::contains`.
abbrev pub contains : String → String → Bool
contains text part = is_some (find? text part)

-- `format!` with the pieces in order.
abbrev pub format : List String → String
format [] = ""
format (piece ∷ pieces) = String.◌++◌ piece (format pieces)

abbrev pub codes : String → List ℕ
codes String.[] = []
codes (String.◌∷◌ c s) = code c ∷ codes s

written_port : u16_to_string 8443 ≡ "8443"
unfolding u16_to_string
written_port = refl

written_zero : u16_to_string 0 ≡ "0"
unfolding u16_to_string
written_zero = refl
