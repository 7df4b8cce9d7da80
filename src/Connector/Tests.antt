-- ===== src/Connector/Tests.antt =====
-- What the connector of a profile sends: the payload and the protocol list of Chrome 134 on Windows.
use quik.Base.{
  ℕ, String, leb, refl, if◌then◌else◌, some, List, [], ◌∷◌, ◌++◌, length, ◌≡◌, arith, codes,
}
use quik.Profile.Chrome134
use quik.Effect.{Result, ok, err}
use quik.Tls.Certificates.{BrotliLib, finished, io_error, copy, decompress}
use quik.Handshake.{configure_builder}
use quik.Tls.{alpn_wire}
use quik.Tls.Alpn.{names_decode, names_decode-alpn_wire}
use quik.Connector.{build_alps_payload}
use quik.Connector.Alps.{
  announced, settings_decode, settings_decode-build_alps_payload, length-build_alps_payload,
}

abbrev extra : List (ℕ × ℕ)
extra = (0x7A9A, 0xE3590A45) ∷ []

settings_decode-build_alps_payload_example :
    settings_decode (build_alps_payload Chrome134.base_h2.settings extra)
    ≡ some (announced (configure_builder Chrome134.base_h2) ++ extra)
unfolding Chrome134.base_h2
settings_decode-build_alps_payload_example =
    settings_decode-build_alps_payload Chrome134.base_h2 extra
      (record {
        header_table_size_lt = omega arith;
        initial_window_size_lt = omega arith;
        max_header_list_size_lt = omega arith;
      })
      ((omega arith, omega arith), tt)

length-build_alps_payload_example :
    length (build_alps_payload Chrome134.base_h2.settings extra) ≡ 30
length-build_alps_payload_example = length-build_alps_payload Chrome134.base_h2.settings extra

names_decode-alpn_wire_example :
    names_decode 2 (alpn_wire (codes "h2" ∷ codes "http/1.1" ∷ []))
    ≡ some (codes "h2" ∷ codes "http/1.1" ∷ [], [])
names_decode-alpn_wire_example =
    names_decode-alpn_wire (codes "h2" ∷ codes "http/1.1" ∷ [])
      ((omega arith, omega arith), ((omega arith, omega arith), tt))

abbrev next_piece : List (List ℕ) → ℕ → Result String (List ℕ) × List (List ℕ)
next_piece [] n = (ok [], [])
next_piece (piece ∷ rest) n = (ok piece, rest)

abbrev accept : List ℕ → List ℕ → Result String (Unit {0}) × List ℕ
accept taken [] = (ok tt, taken)
accept taken (b ∷ bytes) = if leb b 200 then (ok tt, taken ++ (b ∷ bytes)) else (err "full", taken)

-- A decompressor that has its pieces ready, and an output that takes bytes up to the value 200.
abbrev pieces : BrotliLib String
pieces = record {
  Decompressor = List (List ℕ);
  new = λ input n. (7 ∷ 8 ∷ []) ∷ input ∷ [];
  read = next_piece;
  Writer = List ℕ;
  write_all = accept;
}

certificate_expanded : decompress pieces 3 (9 ∷ []) [] ≡ (finished, 7 ∷ 8 ∷ 9 ∷ [])
unfolding decompress copy
certificate_expanded = refl

certificate_refused : decompress pieces 3 (201 ∷ []) [] ≡ (io_error "full", 7 ∷ 8 ∷ [])
unfolding decompress copy
certificate_refused = refl
