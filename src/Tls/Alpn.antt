-- ===== src/Tls/Alpn.antt =====
-- The ALPN wire format of src/tls/connector.rs: the list that RFC 7301 reads back.
use quik.Base.{
  ℕ, zero, suc, ◌<◌, ◌%◌, ◌≡◌, refl, ◌&&◌, ltb, leb, Option, none, some, List, [], ◌∷◌, ◌++◌,
  length, length-append, take, take-append, drop, drop-append, All, arith, if◌then◌else◌,
}
use quik.Tls.{alpn_wire}

-- One name behind the byte of its length, and what is left; none for an empty name or a short list.
next_name : List ℕ → Option (List ℕ × List ℕ)
next_name [] = none
next_name (n ∷ bytes) =
    if ltb 0 n && leb n (length bytes) then some (take n bytes, drop n bytes) else none

-- As many names as `count`, and what is left.
pub names_decode : ℕ → List ℕ → Option (List (List ℕ) × List ℕ)
names_decode zero bytes = some ([], bytes)
names_decode (suc count) bytes = elim (next_name bytes) [
  | none ↦ none
  | some (name, rest) ↦ elim (names_decode count rest) [
    | none ↦ none
    | some (names, left) ↦ some (name ∷ names, left)
  ]
]

abbrev pub Named : List ℕ → Type 0
Named name = (0 < length name) × (length name < 256)

next_name-append :
    (name bytes : List ℕ)
    → Named name
    → next_name ((length name % 256) ∷ (name ++ bytes)) ≡ some (name, bytes)
unfolding next_name
next_name-append name bytes (positive, short) =
    let whole : length name % 256 ≡ length name = omega arith in
    rw (whole, length-append name bytes, take-append name bytes, drop-append name bytes)
      (ground arith)

names_decode-suc :
    (count : ℕ) (bytes name rest : List ℕ) (names : List (List ℕ))
    → next_name bytes ≡ some (name, rest)
    → names_decode count rest ≡ some (names, [])
    → names_decode (suc count) bytes ≡ some (name ∷ names, [])
unfolding names_decode
names_decode-suc count bytes name rest names e f = rw (names_decode, e, f) refl

-- A peer that reads as many names as the profile has reads exactly the profile's protocols, in
-- their order, with no byte left, if each of them has 1 to 255 bytes.
pub names_decode-alpn_wire :
    (protos : List (List ℕ))
    → All Named protos
    → names_decode (length protos) (alpn_wire protos) ≡ some (protos, [])
unfolding names_decode alpn_wire
names_decode-alpn_wire [] h = refl
names_decode-alpn_wire (proto ∷ protos) (named, h) =
    names_decode-suc (length protos) _ proto (alpn_wire protos) protos
      (next_name-append proto (alpn_wire protos) named) (names_decode-alpn_wire protos h)
