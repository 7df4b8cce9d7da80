-- ===== src/Keys/Injective.antt =====
-- Different connections have different keys (src/client/pool.rs, `pool_key`).
use Prim.Native.Char.{code}
use Prim.Native.String
use mathlib.Core.List.{append_cancel_left}
use text.Mathlib.TextLemmas.{cons-append, nil-append}
use text.Mathlib.TextEquality.{Char-path}
use native.Mathlib.Nat.{pow-suc}
use quik.Base.{
  ℕ, zero, suc, ◌+◌, ◌-◌, ◌*◌, ◌/◌, ◌%◌, ◌^◌, ◌≤◌, ◌<◌, String, Bool, true, false, Option, List, [],
  ◌∷◌, ◌++◌, All, All-append, arith, subst, ltb, ltb→lt, digit, decimal, u16_to_string, codes, ◌≡◌,
  refl, sym, ap, ◌∙◌, ◌≢◌, Bool-cases, inl, inr, ◌⊎◌, append-nil, eq_iff,
}
use quik.Proxy.{Proxy}
use quik.Keys.{proxy_prefix, transport_proto, pool_key, origin_key}

codes-append : (s t : String) → codes (String.◌++◌ s t) ≡ codes s ++ codes t
codes-append String.[] t = ap codes (nil-append t)
codes-append (String.◌∷◌ c s) t =
    ap codes (cons-append c s t) ∙ ap (◌∷◌ (code c)) (codes-append s t)

codes-injective : (s t : String) → codes s ≡ codes t → s ≡ t
codes-injective String.[] String.[] e = refl
codes-injective String.[] (String.◌∷◌ d t) e = absurd (cc)
codes-injective (String.◌∷◌ c s) String.[] e = absurd (cc)
codes-injective (String.◌∷◌ c s) (String.◌∷◌ d t) e =
    cc (Char-path c d (cc), codes-injective s t (cc))

-- Digits read back, most significant first.
read : List ℕ → ℕ → ℕ
read [] n = n
read (c ∷ cs) n = read cs (n * 10 + (c - 48))

IsDigit : ℕ → Type 0
IsDigit c = (48 ≤ c) × (c ≤ 57)

code-digit : (d : ℕ) → d < 10 → code (digit d) ≡ 48 + d
code-digit zero h = refl
code-digit (suc zero) h = refl
code-digit (suc (suc zero)) h = refl
code-digit (suc (suc (suc zero))) h = refl
code-digit (suc (suc (suc (suc zero)))) h = refl
code-digit (suc (suc (suc (suc (suc zero))))) h = refl
code-digit (suc (suc (suc (suc (suc (suc zero)))))) h = refl
code-digit (suc (suc (suc (suc (suc (suc (suc zero))))))) h = refl
code-digit (suc (suc (suc (suc (suc (suc (suc (suc zero)))))))) h = refl
code-digit (suc (suc (suc (suc (suc (suc (suc (suc (suc zero))))))))) h = refl
code-digit (suc (suc (suc (suc (suc (suc (suc (suc (suc (suc d)))))))))) h = absurd (omega arith)

read-decimal :
    (places n : ℕ) (tail : String)
    → n < 10 ^ places
    → read (codes (decimal places n tail)) 0 ≡ read (codes tail) n
unfolding read decimal
read-decimal zero n tail h = ap (read (codes tail)) (omega arith)
read-decimal (suc places) n tail h = elim (Bool-cases (ltb n 10)) [
  | inl small ↦
      rw small (
        ap (read (codes tail))
          (omega (arith, code-digit (n % 10) (omega arith), ltb→lt n 10 small)))
  | inr large ↦ rw large (
      read-decimal places (n / 10) (String.◌∷◌ (digit (n % 10)) tail)
        (omega (arith, pow-suc 10 places))
      ∙ ap (read (codes tail)) (omega (arith, code-digit (n % 10) (omega arith))))
]

pub u16_to_string-injective :
    (m n : ℕ) → m < 65536 → n < 65536 → u16_to_string m ≡ u16_to_string n → m ≡ n
unfolding u16_to_string read
u16_to_string-injective m n p q e =
    sym (read-decimal 5 m "" (omega arith))
    ∙ ap (λ s. read (codes s) 0) e
    ∙ read-decimal 5 n "" (omega arith)

-- A list of codes with no `c`.
abbrev Free : ℕ → List ℕ → Type 0
Free c = All (λ x. x ≢ c)

Free-append_right : (c : ℕ) (xs ys : List ℕ) → Free c (xs ++ ys) → Free c ys
Free-append_right c [] ys f = f
Free-append_right c (x ∷ xs) ys f = Free-append_right c xs ys f.1

-- The last place of `c` in a list is determined.
split_unique :
    (c : ℕ) (a a' b b' : List ℕ)
    → Free c b
    → Free c b'
    → a ++ c ∷ b ≡ a' ++ c ∷ b'
    → (a ≡ a') × (b ≡ b')
split_unique c [] [] b b' f g e = (refl, cc)
split_unique c [] (x ∷ a') b b' f g e =
    absurd ((Free-append_right c a' (c ∷ b') (subst (Free c) (cc) f)).0 refl)
split_unique c (x ∷ a) [] b b' f g e =
    absurd ((Free-append_right c a (c ∷ b) (subst (Free c) (cc) g)).0 refl)
split_unique c (x ∷ a) (y ∷ a') b b' f g e =
    let (p, q) = split_unique c a a' b b' f g (cc) in (cc, q)

decimal-All :
    (P : ℕ → Type 0)
    → ((d : ℕ) → d < 10 → P (48 + d))
    → (places n : ℕ) (tail : String) → All P (codes tail)
    → All P (codes (decimal places n tail))
unfolding decimal
decimal-All P p zero n tail h = h
decimal-All P p (suc places) n tail h = elim (Bool-cases (ltb n 10)) [
  | inl small ↦ rw small (first, h)
  | inr large ↦ rw large (decimal-All P p places (n / 10) _ (first, h))
]
  where
    first : P (code (digit (n % 10)))
    first = rw (code-digit (n % 10) (omega arith)) (p (n % 10) (omega arith))

port-Free : (c port : ℕ) → (c < 48) ⊎ (57 < c) → Free c (codes (u16_to_string port))
unfolding u16_to_string
port-Free c port q = decimal-All (λ x. x ≢ c) (λ d h. omega arith) 5 port "" tt

tail_codes : ℕ → Bool → List ℕ
tail_codes port s = codes (u16_to_string port) ++ 35 ∷ codes (transport_proto s)

codes-pool_key :
    (proxy : Option Proxy) (a : String) (port : ℕ) (s : Bool)
    → codes (pool_key proxy a port s)
      ≡ codes (proxy_prefix proxy) ++ (codes a ++ 58 ∷ tail_codes port s)
unfolding tail_codes
codes-pool_key proxy a port s = unfold pool_key in simp (codes-append, append-nil)

proto-Free : (c : ℕ) (s : Bool) → c < 50 → Free c (codes (transport_proto s))
unfolding transport_proto
proto-Free c true h = (omega arith, (omega arith, tt))
proto-Free c false h = (omega arith, (omega arith, tt))

tail-Free : (port : ℕ) (s : Bool) → Free 58 (tail_codes port s)
unfolding tail_codes transport_proto
tail-Free port s =
    All-append (λ x. x ≢ 58) (codes (u16_to_string port)) _ (port-Free 58 port (omega arith))
      (omega arith, proto58 s)
  where
    proto58 : (s : Bool) → Free 58 (codes (transport_proto s))
    proto58 true = (omega arith, (omega arith, tt))
    proto58 false = (omega arith, (omega arith, tt))

transport_proto-injective : (s t : Bool) → transport_proto s ≡ transport_proto t → s ≡ t
unfolding transport_proto
transport_proto-injective s t e = ground (arith, eq_iff "h2" "h3", eq_iff "h3" "h2")

-- Within one client, whose proxy is fixed, two requests with u16 ports share a connection slot only if
-- they go to the same host and port over the same protocol.
pub pool_key-injective :
    (proxy : Option Proxy) (a b : String) (m n : ℕ) (s t : Bool)
    → m < 65536
    → n < 65536
    → pool_key proxy a m s ≡ pool_key proxy b n t
    → (a ≡ b) × (m ≡ n) × (s ≡ t)
unfolding tail_codes
pool_key-injective proxy a b m n s t p q e =
    let parts =
      append_cancel_left (codes (proxy_prefix proxy)) _ _
        (sym (codes-pool_key proxy a m s) ∙ ap codes e ∙ codes-pool_key proxy b n t) in
    let (hosts, tails) = split_unique 58 _ _ _ _ (tail-Free m s) (tail-Free n t) parts in
    let (ports, protos) =
      split_unique 35 _ _ _ _ (proto-Free 35 s (omega arith)) (proto-Free 35 t (omega arith))
        tails in
    (
      codes-injective a b hosts,
      u16_to_string-injective m n p q (codes-injective _ _ ports),
      transport_proto-injective s t (codes-injective _ _ protos),
    )

codes-origin_key :
    (a : String) (port : ℕ) → codes (origin_key a port) ≡ codes a ++ 58 ∷ codes (u16_to_string port)
codes-origin_key a port = unfold origin_key in simp (codes-append, append-nil)

-- Two origins with u16 ports share an entry of the Alt-Svc cache only if host and port agree.
pub origin_key-injective :
    (a b : String) (m n : ℕ)
    → m < 65536
    → n < 65536
    → origin_key a m ≡ origin_key b n
    → (a ≡ b) × (m ≡ n)
origin_key-injective a b m n p q e =
    let (hosts, ports) =
      split_unique 58 _ _ _ _ (port-Free 58 m (omega arith)) (port-Free 58 n (omega arith))
        (sym (codes-origin_key a m) ∙ ap codes e ∙ codes-origin_key b n) in
    (codes-injective a b hosts, u16_to_string-injective m n p q (codes-injective _ _ ports))
