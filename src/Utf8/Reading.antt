-- ===== src/Utf8/Reading.antt =====
-- `String::from_utf8` on the bytes of one code point.

use quik.Base.{
  Bool-cases, subst, sym, utf8, ℕ, suc, ◌+◌, ◌*◌, ◌/◌, ◌%◌, ◌<◌, ◌≤◌, ◌==◌, ltb, none, some, List,
  [], ◌∷◌, ◌++◌, arith, ◌≡◌, refl, ◌∙◌, ◌≢◌, ◌⊎◌, inl, inr,
}
use quik.Utf8.{Partial, whole, partial, opening, lead, follow, push, scan}

lead_1 : (b : ℕ) → b < 0x80 → lead b ≡ whole b
unfolding lead
lead_1 b h = ground arith

lead_2 : (q : ℕ) → 2 ≤ q → q < 32 → lead (0xC0 + q) ≡ opening 1 0x80 0xBF q
unfolding lead
lead_2 q h k = ground arith

lead_3 : (q : ℕ) → 1 ≤ q → q < 16 → q ≢ 13 → lead (0xE0 + q) ≡ opening 2 0x80 0xBF q
unfolding lead
lead_3 q h k n = ground arith

lead_3_zero : lead 0xE0 ≡ opening 2 0xA0 0xBF 0
unfolding lead
lead_3_zero = refl

lead_3_surrogate : lead 0xED ≡ opening 2 0x80 0x9F 13
unfolding lead
lead_3_surrogate = refl

lead_4 : (q : ℕ) → 1 ≤ q → q < 4 → lead (0xF0 + q) ≡ opening 3 0x80 0xBF q
unfolding lead
lead_4 q h k = ground arith

abbrev within : ℕ → ℕ → ℕ → ℕ → ℕ → Partial
within missing low high bits taken = record {
  missing = missing;
  low = low;
  high = high;
  bits = bits;
  taken = taken;
}

follow_last :
    (low high bits taken r : ℕ)
    → low ≤ 0x80 + r
    → 0x80 + r ≤ high
    → follow (within 1 low high bits taken) (0x80 + r) ≡ whole (bits * 64 + r)
unfolding follow
follow_last low high bits taken r h k = ground arith

follow_more :
    (missing low high bits taken r : ℕ)
    → low ≤ 0x80 + r
    → 0x80 + r ≤ high
    → follow (within (suc (suc missing)) low high bits taken) (0x80 + r)
      ≡ partial (within (suc missing) 0x80 0xBF (bits * 64 + r) (suc taken))
unfolding follow
follow_more missing low high bits taken r h k = ground arith

-- These bytes are read as this code point, whatever follows and wherever they stand.
unfoldable pub IsSpelling : ℕ → List ℕ → Type 0
IsSpelling c bytes =
    (at : ℕ) (rest : List ℕ)
    → (at' : ℕ) × (scan none at (bytes ++ rest) ≡ push c (scan none at' rest))

scan_opens :
    (p : Partial) (at b : ℕ) (bytes : List ℕ)
    → lead b ≡ partial p
    → scan none at (b ∷ bytes) ≡ scan (some p) at bytes
unfolding scan
scan_opens p at b bytes e = rw (scan, e) refl

scan_goes :
    (p p' : Partial) (at b : ℕ) (bytes : List ℕ)
    → follow p b ≡ partial p'
    → scan (some p) at (b ∷ bytes) ≡ scan (some p') at bytes
unfolding scan
scan_goes p p' at b bytes e = rw (scan, e) refl

scan_ends :
    (p : Partial) (at b c : ℕ) (bytes : List ℕ)
    → follow p b ≡ whole c
    → scan (some p) at (b ∷ bytes) ≡ push c (scan none (at + p.taken + 1) bytes)
unfolding scan
scan_ends p at b c bytes e = rw (scan, e) refl

read_1 : (c : ℕ) → c < 0x80 → IsSpelling c (c ∷ [])
unfolding IsSpelling scan
read_1 c h at rest = (at + 1, rw (scan, lead_1 c h) refl)

read_2 :
    (q r : ℕ) → 2 ≤ q → q < 32 → r < 64 → IsSpelling (q * 64 + r) ((0xC0 + q) ∷ (0x80 + r) ∷ [])
unfolding IsSpelling
read_2 q r h k l at rest = (
  at + 1 + 1,
  scan_opens _ at _ _ (lead_2 q h k)
      ∙ scan_ends _ at _ _ rest (follow_last 0x80 0xBF q 1 r (omega arith) (omega (arith, l))),
)

read_3 :
    (first low high q r s : ℕ)
    → lead first ≡ opening 2 low high q
    → low ≤ 0x80 + r
    → 0x80 + r ≤ high
    → s < 64
    → IsSpelling ((q * 64 + r) * 64 + s) (first ∷ (0x80 + r) ∷ (0x80 + s) ∷ [])
unfolding IsSpelling
read_3 first low high q r s e h k l at rest = (
  at + 2 + 1,
  scan_opens _ at _ _ e
      ∙ scan_goes _ _ at _ _ (follow_more 0 low high q 1 r h k)
      ∙ scan_ends _ at _ _ rest
          (follow_last 0x80 0xBF (q * 64 + r) 2 s (omega arith) (omega (arith, l))),
)

read_4 :
    (first low high q r s t : ℕ)
    → lead first ≡ opening 3 low high q
    → low ≤ 0x80 + r
    → 0x80 + r ≤ high
    → s < 64
    → t < 64
    → IsSpelling
        (((q * 64 + r) * 64 + s) * 64 + t)
        (first ∷ (0x80 + r) ∷ (0x80 + s) ∷ (0x80 + t) ∷ [])
unfolding IsSpelling
read_4 first low high q r s t e h k l m at rest = (
  at + 3 + 1,
  scan_opens _ at _ _ e
      ∙ scan_goes _ _ at _ _ (follow_more 1 low high q 1 r h k)
      ∙ scan_goes _ _ at _ _
          (follow_more 0 0x80 0xBF (q * 64 + r) 2 s (omega arith) (omega (arith, l)))
      ∙ scan_ends _ at _ _ rest
          (follow_last 0x80 0xBF ((q * 64 + r) * 64 + s) 3 t (omega arith) (omega (arith, m))),
)

-- The bounds of a scalar value.
unfoldable pub IsScalar : ℕ → Type 0
IsScalar c = (c < 55296) ⊎ ((57343 < c) × (c < 1114112))

two : (c : ℕ) → c / 64 * 64 + c % 64 ≡ c
two c = omega arith

three : (c : ℕ) → (c / 4096 * 64 + c / 64 % 64) * 64 + c % 64 ≡ c
three c = omega arith

four : (c : ℕ) → ((c / 262144 * 64 + c / 4096 % 64) * 64 + c / 64 % 64) * 64 + c % 64 ≡ c
four c = omega arith

-- Between which bounds the second byte lies, and that it does.
record SecondByte (missing first q r : ℕ) : Type 0 where
  pub low : ℕ
  pub high : ℕ
  pub opens : lead first ≡ opening missing low high q
  pub above : low ≤ 0x80 + r
  pub below : 0x80 + r ≤ high

opens_3 :
    (q r : ℕ) → q < 16 → r < 64 → (q ≡ 0 → 32 ≤ r) → (q ≡ 13 → r < 32) → SecondByte 2 (0xE0 + q) q r
opens_3 q r h k f g = elim (Bool-cases (q == 0)) [
  | inl z ↦
      let e : 0 ≡ q = ground arith in
      let b = f (sym e) in
      record {
        low = 0xA0;
        high = 0xBF;
        opens = subst (λ q. lead (0xE0 + q) ≡ opening 2 0xA0 0xBF q) e lead_3_zero;
        above = omega (arith, b);
        below = omega (arith, k);
      }
  | inr n ↦ elim (Bool-cases (q == 13)) [
    | inl z ↦
        let e : 13 ≡ q = ground arith in
        let b = g (sym e) in
        record {
          low = 0x80;
          high = 0x9F;
          opens = subst (λ q. lead (0xE0 + q) ≡ opening 2 0x80 0x9F q) e lead_3_surrogate;
          above = omega arith;
          below = omega (arith, b);
        }
    | inr m ↦ record {
      low = 0x80;
      high = 0xBF;
      opens = lead_3 q (ground (arith, n)) h (λ e. ground (arith, m, e));
      above = omega arith;
      below = omega (arith, k);
    }
  ]
]

opens_4 :
    (q r : ℕ) → q < 5 → r < 64 → (q ≡ 0 → 16 ≤ r) → (q ≡ 4 → r < 16) → SecondByte 3 (0xF0 + q) q r
unfolding lead
opens_4 q r h k f g = elim (Bool-cases (q == 0)) [
  | inl z ↦
      let e : 0 ≡ q = ground arith in
      let b = f (sym e) in
      record {
        low = 0x90;
        high = 0xBF;
        opens = subst (λ q. lead (0xF0 + q) ≡ opening 3 0x90 0xBF q) e refl;
        above = omega (arith, b);
        below = omega (arith, k);
      }
  | inr n ↦ elim (Bool-cases (q == 4)) [
    | inl z ↦
        let e : 4 ≡ q = ground arith in
        let b = g (sym e) in
        record {
          low = 0x80;
          high = 0x8F;
          opens = subst (λ q. lead (0xF0 + q) ≡ opening 3 0x80 0x8F q) e refl;
          above = omega arith;
          below = omega (arith, b);
        }
    | inr m ↦ record {
      low = 0x80;
      high = 0xBF;
      opens = lead_4 q (ground (arith, n)) (ground (arith, m, h));
      above = omega arith;
      below = omega (arith, k);
    }
  ]
]

read_wide :
    (c : ℕ)
    → 0x800 ≤ c
    → c < 0x10000
    → IsScalar c
    → IsSpelling
        ((c / 4096 * 64 + c / 64 % 64) * 64 + c % 64)
        ((0xE0 + c / 4096) ∷ (0x80 + c / 64 % 64) ∷ (0x80 + c % 64) ∷ [])
unfolding IsScalar
read_wide c h k v =
    let o =
      opens_3 (c / 4096) (c / 64 % 64) (omega (arith, k)) (omega arith) (λ e. omega (arith, h, e))
        (λ e. elim v [ inl a ↦ omega (arith, a, e) | inr (a, b) ↦ omega (arith, a, e, k) ]) in
    read_3 (0xE0 + c / 4096) o.low o.high (c / 4096) (c / 64 % 64) (c % 64) o.opens o.above o.below
      (omega arith)

read_widest :
    (c : ℕ)
    → 0x10000 ≤ c
    → IsScalar c
    → IsSpelling
        (((c / 262144 * 64 + c / 4096 % 64) * 64 + c / 64 % 64) * 64 + c % 64)
        ((0xF0 + c / 262144) ∷ (0x80 + c / 4096 % 64) ∷ (0x80 + c / 64 % 64) ∷ (0x80 + c % 64) ∷ [])
unfolding IsScalar
read_widest c h v =
    let top : c < 1114112 = elim v [ inl a ↦ omega (arith, a, h) | inr (a, b) ↦ b ] in
    let o =
      opens_4 (c / 262144) (c / 4096 % 64) (omega (arith, top)) (omega arith)
        (λ e. omega (arith, h, e)) (λ e. omega (arith, top, e)) in
    read_4 (0xF0 + c / 262144) o.low o.high (c / 262144) (c / 4096 % 64) (c / 64 % 64) (c % 64)
      o.opens o.above o.below (omega arith) (omega arith)

pub utf8-IsSpelling : (c : ℕ) → IsScalar c → IsSpelling c (utf8 c)
unfolding IsScalar
utf8-IsSpelling c v = elim (Bool-cases (ltb c 0x80)) [
  | inl e ↦ rw e (read_1 c (ground (arith, e)))
  | inr n ↦ elim (Bool-cases (ltb c 0x800)) [
    | inl e ↦
        rw (n, e)
          (subst (λ k. IsSpelling k ((0xC0 + c / 64) ∷ (0x80 + c % 64) ∷ [])) (two c)
            (read_2 (c / 64) (c % 64) (ground (arith, n)) (ground (arith, e)) (omega arith)))
    | inr m ↦ elim (Bool-cases (ltb c 0x10000)) [
      | inl e ↦
          rw (n, m, e)
            (subst
              (λ k. IsSpelling k ((0xE0 + c / 4096) ∷ (0x80 + c / 64 % 64) ∷ (0x80 + c % 64) ∷ []))
              (three c) (read_wide c (ground (arith, m)) (ground (arith, e)) v))
      | inr o ↦
          rw (n, m, o)
            (subst
              (λ k. IsSpelling k (
                (0xF0 + c / 262144)
                ∷ (0x80 + c / 4096 % 64)
                ∷ (0x80 + c / 64 % 64)
                ∷ (0x80 + c % 64)
                ∷ []))
              (four c) (read_widest c (ground (arith, o)) v))
    ]
  ]
]
