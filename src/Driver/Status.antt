-- ===== src/Driver/Status.antt =====
-- src/client/quic.rs, the status of a response: which header lines bring one, and the number that
-- their text stands for.
use quik.Base.{
  ℕ, ◌+◌, ◌*◌, ◌-◌, ◌≤◌, ◌==◌, leb, Bool, true, false, ◌&&◌, List, [], ◌∷◌, Option, none, some,
  if◌then◌else◌, codes, arith, ◌≡◌, refl, Bool-cases, inl, inr,
}
use quik.Driver.{parse_digits, parse_u16, same_bytes}

-- The bytes of `:status`.
unfoldable pub names_status : List ℕ → Bool
names_status (a ∷ b ∷ c ∷ d ∷ e ∷ f ∷ g ∷ []) =
    a == 58 && (b == 115 && (c == 116 && (d == 97 && (e == 116 && (f == 117 && g == 115)))))
names_status _ = false

pub same_bytes-names_status :
    (name : List ℕ) → same_bytes name (codes ":status") ≡ names_status name
unfolding names_status
same_bytes-names_status [] = refl
same_bytes-names_status (a ∷ []) = ground arith
same_bytes-names_status (a ∷ b ∷ []) = ground arith
same_bytes-names_status (a ∷ b ∷ c ∷ []) = ground arith
same_bytes-names_status (a ∷ b ∷ c ∷ d ∷ []) = ground arith
same_bytes-names_status (a ∷ b ∷ c ∷ d ∷ e ∷ []) = ground arith
same_bytes-names_status (a ∷ b ∷ c ∷ d ∷ e ∷ f ∷ []) = ground arith
same_bytes-names_status (a ∷ b ∷ c ∷ d ∷ e ∷ f ∷ g ∷ []) = ground arith
same_bytes-names_status (a ∷ b ∷ c ∷ d ∷ e ∷ f ∷ g ∷ h ∷ rest) = ground arith

unfoldable pub are_digits : List ℕ → Bool
are_digits [] = true
are_digits (b ∷ bytes) = (leb 48 b && leb b 57) && are_digits bytes

-- The number that digits stand for behind `n`.
unfoldable pub value_behind : ℕ → List ℕ → ℕ
value_behind n [] = n
value_behind n (b ∷ bytes) = value_behind (10 * n + (b - 48)) bytes

-- A number of digits alone that a u16 holds.
unfoldable pub small_number : List ℕ → Option ℕ
unfolding are_digits value_behind
small_number bytes =
    if are_digits bytes && leb (value_behind 0 bytes) 65535
    then some (value_behind 0 bytes)
    else none

-- One digit at least, and a plus may stand before them.
unfoldable pub number_of : List ℕ → Option ℕ
unfolding small_number
number_of [] = none
number_of (b ∷ []) = small_number (b ∷ [])
number_of (b ∷ c ∷ bytes) =
    if b == 43 then small_number (c ∷ bytes) else small_number (b ∷ c ∷ bytes)

value_behind-grows : (n : ℕ) (bytes : List ℕ) → n ≤ value_behind n bytes
unfolding value_behind
value_behind-grows n [] = omega arith
value_behind-grows n (b ∷ bytes) = omega (arith, value_behind-grows (10 * n + (b - 48)) bytes)

leb-true : (a b : ℕ) → leb a b ≡ true → a ≤ b
leb-true a b h = ground arith

too_large :
    (d : Bool) (n : ℕ) (bytes : List ℕ)
    → leb n 65535 ≡ false
    → none ≡ (if d && leb (value_behind n bytes) 65535 then some (value_behind n bytes) else none)
too_large d n bytes h = ground (arith, value_behind-grows n bytes)

parse_digits-behind :
    (n : ℕ) (bytes : List ℕ)
    → n ≤ 65535
    → parse_digits n bytes ≡ (
        if are_digits bytes && leb (value_behind n bytes) 65535
        then some (value_behind n bytes)
        else none)
unfolding parse_digits are_digits value_behind
parse_digits-behind n [] h = ground arith
parse_digits-behind n (b ∷ bytes) h = elim (Bool-cases (leb 48 b)) [
  | inr below ↦ rw below refl
  | inl above ↦ elim (Bool-cases (leb b 57)) [
    | inr over ↦ rw (above, over) refl
    | inl digit ↦ elim (Bool-cases (leb (10 * n + (b - 48)) 65535)) [
      | inl fits ↦
          rw (above, digit, fits)
            (parse_digits-behind (10 * n + (b - 48)) bytes
              (leb-true (10 * n + (b - 48)) 65535 fits))
      | inr large ↦
          rw (above, digit, large) (too_large (are_digits bytes) (10 * n + (b - 48)) bytes large)
    ]
  ]
]

pub parse_u16-number_of : (bytes : List ℕ) → parse_u16 bytes ≡ number_of bytes
unfolding parse_u16 number_of small_number
parse_u16-number_of [] = refl
parse_u16-number_of (b ∷ []) = parse_digits-behind 0 (b ∷ []) (omega arith)
parse_u16-number_of (b ∷ c ∷ bytes) = elim (Bool-cases (b == 43)) [
  | inl plus ↦ rw plus (parse_digits-behind 0 (c ∷ bytes) (omega arith))
  | inr digit ↦ rw digit (parse_digits-behind 0 (b ∷ c ∷ bytes) (omega arith))
]
