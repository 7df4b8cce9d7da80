-- ===== src/Response/Tests.antt =====
-- A body that comes over HTTP/2 in two pieces, under a coding whose decoder wants a mark in front.
use quik.Base.{
  ℕ, String, as_bytes, Option, false, some, none, List, [], ◌∷◌, drop, begins_with, lookup,
  if◌then◌else◌, ◌≡◌, refl, arith,
}
use quik.Effect.{Result, ok, err, lift}
use quik.Externals.{Externals}
use quik.Externals.Sample.{Blocks, sample}
use quik.Quic.{told}
use quik.Response.{Response, http2_body}
use quik.Response.Body.{Codecs, text, bytes, collect, body_data, encoding, decode}
use quik.Response.Coding.{
  ended, piece, Brings, gzip, identity, IsLabelled, decoded, bytes_lem, text-as_bytes,
}

abbrev next_piece :
    List (List ℕ) → Blocks → Result String (Option (List ℕ × List (List ℕ))) × Blocks
next_piece [] w = (ok none, w)
next_piece (chunk ∷ chunks) w = (ok (some (chunk, chunks)), w)

abbrev outside : Externals
outside = record (sample []) {
  RecvStream = List (List ℕ);
  h2_response = λ f w. (err "closed", w);
  h2_data = next_piece;
}

abbrev unmarked : List ℕ → Result String (List ℕ)
unmarked sent = if begins_with sent (31 ∷ []) then ok (drop 1 sent) else err "no mark"

abbrev codecs : Codecs outside
codecs = record {
  brotli = λ sent. err "no window";
  zstd = λ sent. err "no frame";
  gzip = unmarked;
  Json = List ℕ;
  from_slice = ok;
}

abbrev pieces : List (List ℕ)
pieces = (31 ∷ 1 ∷ []) ∷ (2 ∷ []) ∷ []

abbrev page : Response outside
page = record {
  status = 200;
  headers = ("content-encoding", record { text = "gzip"; sensitive = false }) ∷ [];
  body = http2_body pieces;
  url = "https://a.example/";
}

page-IsLabelled : IsLabelled outside page.headers gzip
unfolding IsLabelled lookup
page-IsLabelled = (record { text = "gzip"; sensitive = false }, refl, refl)

page-Brings : Brings outside 3 page.body [] (31 ∷ 1 ∷ 2 ∷ []) []
unfolding Brings
page-Brings = (pieces, piece refl (piece refl (ended refl)), omega arith, refl)

bytes-page : bytes outside codecs 3 page [] ≡ (ok (1 ∷ 2 ∷ []), [])
unfolding bytes body_data collect encoding decode lookup
bytes-page = refl

bytes_lem_example :
    bytes outside codecs 3 page [] ≡ lift told (decoded outside codecs gzip (31 ∷ 1 ∷ 2 ∷ [])) []
bytes_lem_example =
    bytes_lem outside codecs 3 page gzip (31 ∷ 1 ∷ 2 ∷ []) [] [] page-IsLabelled page-Brings

-- A text whose second character is cut in two.
abbrev plain : Response outside
plain = record {
  status = 200;
  headers = [];
  body = http2_body ((0x61 ∷ 0xC3 ∷ []) ∷ (0xA9 ∷ []) ∷ []);
  url = "https://a.example/";
}

plain-IsLabelled : IsLabelled outside plain.headers identity
unfolding IsLabelled lookup
plain-IsLabelled = refl

plain-Brings : Brings outside 3 plain.body [] (0x61 ∷ 0xC3 ∷ 0xA9 ∷ []) []
unfolding Brings
plain-Brings =
    ((0x61 ∷ 0xC3 ∷ []) ∷ (0xA9 ∷ []) ∷ [], piece refl (piece refl (ended refl)), omega arith, refl)

plain-decoded : decoded outside codecs identity (0x61 ∷ 0xC3 ∷ 0xA9 ∷ []) ≡ ok (as_bytes "aé")
unfolding decoded as_bytes
plain-decoded = refl

text-as_bytes_example : text outside codecs 3 plain [] ≡ (ok "aé", [])
text-as_bytes_example =
    text-as_bytes outside codecs 3 plain identity (0x61 ∷ 0xC3 ∷ 0xA9 ∷ []) [] [] "aé"
      plain-IsLabelled plain-Brings plain-decoded
