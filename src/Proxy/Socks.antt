-- ===== src/Proxy/Socks.antt =====
-- The connection request that `dial_socks5_proxy` of src/client/proxy.rs writes, against the wire
-- format of RFC 1928.
use quik.Base.{
  ℕ, zero, suc, ◌+◌, ◌-◌, ◌%◌, ◌≤◌, ◌<◌, String, ◌&&◌, ◌==◌, leb, ltb, ltb→lt, Option, none, some,
  List, [], ◌∷◌, ◌++◌, length, length-append, take, drop, take-append, drop-append, arith,
  if◌then◌else◌, as_bytes, u16_be, u16_of, true, false, refl, ap, ◌⊎◌, ◌≡◌, Bool-cases, inl, inr,
}
use quik.Proxy.{socks5_request}

-- A host, then two bytes of a port, and what is left of the stream.
with_port : List ℕ → List ℕ → Option (List ℕ × ℕ × List ℕ)
with_port host (a ∷ b ∷ left) = some (host, u16_of a b, left)
with_port host _ = none

-- How a proxy reads a CONNECT request for a domain name off the stream: version, command, reserved
-- byte and address type, then a length, as many bytes of a host, and a port. It takes no more bytes
-- than these, and gives the host, the port and what is left.
unfoldable pub socks5_decode : List ℕ → Option (List ℕ × ℕ × List ℕ)
unfolding with_port
socks5_decode (version ∷ command ∷ reserved ∷ kind ∷ len ∷ rest) =
    if version == 5 && (command == 1 && (reserved == 0 && (kind == 3 && leb len (length rest))))
    then with_port (take len rest) (drop len rest)
    else none
socks5_decode _ = none

leb-true : (a b : ℕ) → a ≤ b → leb a b ≡ true
leb-true a b h = ground arith

ltb-false : (a b : ℕ) → ltb a b ≡ false → b ≤ a
ltb-false a b h = ground arith

take-short : (n : ℕ) (xs ys : List ℕ) → n ≤ length xs → take n (xs ++ ys) ≡ take n xs
take-short zero xs ys h = refl
take-short (suc n) [] ys h = absurd (omega arith)
take-short (suc n) (x ∷ xs) ys h = ap (◌∷◌ x) (take-short n xs ys (omega arith))

length-drop : (n : ℕ) (xs : List ℕ) → length (drop n xs) ≡ length xs - n
length-drop zero xs = omega arith
length-drop (suc n) [] = omega arith
length-drop (suc n) (x ∷ xs) = omega (arith, length-drop n xs)

with_port-long :
    (host rest : List ℕ)
    → 258 ≤ length rest
    → (seen : ℕ) × (left : List ℕ) × (with_port host rest ≡ some (host, seen, left))
      × (256 ≤ length left)
unfolding with_port
with_port-long host [] h = absurd (omega arith)
with_port-long host (a ∷ []) h = absurd (omega arith)
with_port-long host (a ∷ b ∷ left) h = (u16_of a b, left, refl, omega arith)

decode_short :
    (host : List ℕ) (port : ℕ)
    → port < 65536
    → socks5_decode (5 ∷ 1 ∷ 0 ∷ 3 ∷ length host ∷ host ++ u16_be port) ≡ some (host, port, [])
unfolding socks5_decode
decode_short host port p =
    rw
      (
        length-append host (u16_be port),
        take-append host (u16_be port),
        drop-append host (u16_be port),
      )
      (ground arith)

decode_long :
    (host : List ℕ) (port len : ℕ)
    → 256 ≤ length host
    → len < 256
    → len + 256 ≤ length host
    → (seen : ℕ) × (left : List ℕ) × (socks5_decode (5 ∷ 1 ∷ 0 ∷ 3 ∷ len ∷ host ++ u16_be port)
        ≡ some (take len host, seen, left))
      × (256 ≤ length left)
unfolding socks5_decode
decode_long host port len h k m =
    let whole : length (host ++ u16_be port) ≡ length host + 2 = length-append host (u16_be port) in
    let fits : leb len (length (host ++ u16_be port)) ≡ true =
      leb-true len (length (host ++ u16_be port)) (omega arith) in
    let (seen, left, e, more) =
      with_port-long (take len host) (drop len (host ++ u16_be port))
        (omega (arith, length-drop len (host ++ u16_be port), whole)) in
    (seen, left, rw (fits, take-short len host (u16_be port) (omega arith)) e, more)

-- For a u16 port: if the host has less than 256 bytes, a proxy that reads the request gets the host
-- and the port, with nothing left over. Otherwise the length byte wraps round: the proxy gets only
-- the first bytes of the host, as many as its length is mod 256, and at least 256 bytes of the
-- request are left in the stream.
pub socks5_decode-socks5_request :
    (host : String) (port : ℕ)
    → port < 65536
    → ((length (as_bytes host) < 256)
        × (socks5_decode (socks5_request host port) ≡ some (as_bytes host, port, [])))
      ⊎ ((256 ≤ length (as_bytes host))
          × (seen : ℕ) × (left : List ℕ) × (socks5_decode (socks5_request host port)
              ≡ some (take (length (as_bytes host) % 256) (as_bytes host), seen, left))
          × (256 ≤ length left))
unfolding socks5_request
socks5_decode-socks5_request host port p = elim (Bool-cases (ltb (length (as_bytes host)) 256)) [
  | inl short ↦
      let small = ltb→lt (length (as_bytes host)) 256 short in
      let whole : length (as_bytes host) % 256 ≡ length (as_bytes host) = omega arith in
      inl (small, rw whole (decode_short (as_bytes host) port p))
  | inr long ↦
      let large : 256 ≤ length (as_bytes host) = ltb-false (length (as_bytes host)) 256 long in
      let (seen, left, read, more) =
        decode_long (as_bytes host) port (length (as_bytes host) % 256) large (omega arith)
          (omega arith) in
      inr (large, seen, left, read, more)
]
