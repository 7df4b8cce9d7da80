-- ===== src/Base/Bytes.antt =====
-- Bytes of the standard library: `as_bytes` of a text, and `to_be_bytes` of a u16 and a u32.
use Prim.Native.Nat.{ℕ, ◌+◌, ◌*◌, ◌/◌, ◌%◌}
use Prim.Native.Char.{code}
use Prim.Native.String.{String}
use mathlib.Core.Bool.{Bool, true, false, ◌&&◌}
use mathlib.Core.List.{List, [], ◌∷◌, ◌++◌}
use quik.Base.Tests.{ltb, ◌==◌, if◌then◌else◌}

-- UTF-8 of one code point.
abbrev pub utf8 : ℕ → List ℕ
utf8 c =
    if ltb c 0x80
    then c ∷ []
    else if ltb c 0x800
    then (0xC0 + c / 64) ∷ (0x80 + c % 64) ∷ []
    else if ltb c 0x10000
    then (0xE0 + c / 4096) ∷ (0x80 + c / 64 % 64) ∷ (0x80 + c % 64) ∷ []
    else (0xF0 + c / 262144) ∷ (0x80 + c / 4096 % 64) ∷ (0x80 + c / 64 % 64) ∷ (0x80 + c % 64) ∷ []

unfoldable pub as_bytes : String → List ℕ
as_bytes String.[] = []
as_bytes (String.◌∷◌ c s) = utf8 (code c) ++ as_bytes s

abbrev pub u16_be : ℕ → List ℕ
u16_be n = (n / 256 % 256) ∷ (n % 256) ∷ []

abbrev pub u32_be : ℕ → List ℕ
u32_be n = (n / 16777216 % 256) ∷ (n / 65536 % 256) ∷ (n / 256 % 256) ∷ (n % 256) ∷ []

-- The numbers that such bytes stand for.
abbrev pub u16_of : ℕ → ℕ → ℕ
u16_of a b = a * 256 + b

abbrev pub u32_of : ℕ → ℕ → ℕ → ℕ → ℕ
u32_of a b c d = ((a * 256 + b) * 256 + c) * 256 + d

-- `starts_with` on bytes.
abbrev pub begins_with : List ℕ → List ℕ → Bool
begins_with bytes [] = true
begins_with [] (p ∷ ps) = false
begins_with (b ∷ bytes) (p ∷ ps) = b == p && begins_with bytes ps

-- `contains` on bytes.
abbrev pub holds : List ℕ → List ℕ → Bool
holds [] part = begins_with [] part
holds (b ∷ bytes) part = if begins_with (b ∷ bytes) part then true else holds bytes part
