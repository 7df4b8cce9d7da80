-- ===== src/Response/Coding.antt =====
-- src/client/response.rs: what `Response::bytes` gives back of a body that a server encoded.
use mathlib.Core.List.{append_assoc, append-nil}
use quik.Base.{
  String, as_bytes, ℕ, zero, suc, ◌<◌, none, some, List, [], ◌∷◌, ◌++◌, length, arith, ◌≡◌, refl,
  ◌∙◌, ap,
}
use quik.Effect.{Result, ok, lift}
use quik.Externals.{Externals}
use quik.Utf8.Laws.{from_utf8-as_bytes}
use quik.Quic.{told}
use quik.Response.{ResponseBody, http2_body, http3_body, Response}
use quik.Response.Body.{Codecs, collect, body_data, encoding, decode, bytes, text}

module _ (x : Externals) where
  open x use {World, Foreign, RecvStream, http}

  -- A stream brings these pieces, one after the other, and ends.
  pub data Delivers : RecvStream → World → List (List ℕ) → World → Type 0 where
    ended : {s : RecvStream} {w w' : World} → x.h2_data s w ≡ (ok none, w') → Delivers s w [] w'
    piece :
        {s s' : RecvStream} {w w' w'' : World} {chunk : List ℕ} {chunks : List (List ℕ)}
        → x.h2_data s w ≡ (ok (some (chunk, s')), w')
        → Delivers s' w' chunks w''
        → Delivers s w (chunk ∷ chunks) w''

  abbrev pub joined : List (List ℕ) → List ℕ
  joined [] = []
  joined (chunk ∷ chunks) = chunk ++ joined chunks

  collect-Delivers :
      (fuel : ℕ) (s : RecvStream) (w w' : World) (collected : List ℕ) (chunks : List (List ℕ))
      → length chunks < fuel
      → Delivers s w chunks w'
      → collect x fuel s collected w ≡ (ok (collected ++ joined chunks), w')
  unfolding collect
  collect-Delivers zero s w w' collected chunks b d = absurd (omega (arith, b))
  collect-Delivers (suc fuel) s w w' collected [] b (ended e) = rw (e, append-nil collected) refl
  collect-Delivers (suc fuel) s w w' collected (chunk ∷ chunks) b (piece e d) = rw e (
      collect-Delivers fuel _ _ w' (collected ++ chunk) chunks (omega (arith, b)) d
      ∙ ap (λ l. (ok l, w')) (append_assoc collected chunk (joined chunks)))

  -- The body brings these bytes: over HTTP/2 in fewer pieces than `fuel`, over HTTP/3 at once.
  unfoldable pub Brings : ℕ → ResponseBody x → World → List ℕ → World → Type 0
  Brings fuel (http2_body s) w sent w' =
      (chunks : List (List ℕ)) × Delivers s w chunks w'
      × (length chunks < fuel)
      × (joined chunks ≡ sent)
  Brings fuel (http3_body collected) w sent w' = (collected ≡ sent) × (w ≡ w')

  body_data-Brings :
      (fuel : ℕ) (body : ResponseBody x) (w w' : World) (sent : List ℕ)
      → Brings fuel body w sent w'
      → body_data x fuel body w ≡ (ok sent, w')
  unfolding body_data Brings
  body_data-Brings fuel (http2_body s) w w' sent (chunks, d, b, e) =
      collect-Delivers fuel s w w' [] chunks b d ∙ ap (λ l. (ok l, w')) e
  body_data-Brings fuel (http3_body collected) w w' sent (e, f) = rw (e, f) refl

  -- The codings that the client decodes.
  pub data Coding : Type 0 where
    br zstd gzip identity : Coding

  -- The header names the coding, or is absent for none.
  unfoldable pub IsLabelled : http.HeaderMap → Coding → Type 0
  IsLabelled headers br =
      (v : http.HeaderValue) × (http.get headers "content-encoding" ≡ some v)
      × (http.to_str v ≡ some "br")
  IsLabelled headers zstd =
      (v : http.HeaderValue) × (http.get headers "content-encoding" ≡ some v)
      × (http.to_str v ≡ some "zstd")
  IsLabelled headers gzip =
      (v : http.HeaderValue) × (http.get headers "content-encoding" ≡ some v)
      × (http.to_str v ≡ some "gzip")
  IsLabelled headers identity = http.get headers "content-encoding" ≡ none

  module _ (c : Codecs x) where
    unfoldable pub decoded : Coding → List ℕ → Result Foreign (List ℕ)
    decoded br sent = c.brotli sent
    decoded zstd sent = c.zstd sent
    decoded gzip sent = c.gzip sent
    decoded identity sent = ok sent

    decode-IsLabelled :
        (headers : http.HeaderMap) (coding : Coding) (sent : List ℕ)
        → IsLabelled headers coding
        → decode x c (encoding x headers) sent ≡ decoded coding sent
    unfolding decode encoding IsLabelled decoded
    decode-IsLabelled headers br sent (v, e, t) = rw (encoding, e, t) refl
    decode-IsLabelled headers zstd sent (v, e, t) = rw (encoding, e, t) refl
    decode-IsLabelled headers gzip sent (v, e, t) = rw (encoding, e, t) refl
    decode-IsLabelled headers identity sent e = rw (encoding, e) refl

    -- Where the header names one of the four codings, or is absent, and the body brings some bytes,
    -- in fewer pieces than the fuel: `bytes` answers what the decoder of that coding makes of those
    -- bytes as a whole, however they were cut into pieces, over either protocol, and an error of the
    -- decoder comes back as an error of the crate.
    pub bytes_lem :
        (fuel : ℕ) (r : Response x) (coding : Coding) (sent : List ℕ) (w w' : World)
        → IsLabelled r.headers coding
        → Brings fuel r.body w sent w'
        → bytes x c fuel r w ≡ lift told (decoded coding sent) w'
    unfolding bytes
    bytes_lem fuel r coding sent w w' e b =
        rw (body_data-Brings fuel r.body w w' sent b, decode-IsLabelled r.headers coding sent e)
          refl

    -- Where the header names one of the four codings, or is absent, the body brings some bytes, in
    -- fewer pieces than the fuel, and the decoder of that coding makes the bytes of a text of them:
    -- `text` answers that text, whatever its characters, also where the body was cut within one.
    pub text-as_bytes :
        (fuel : ℕ) (r : Response x) (coding : Coding) (sent : List ℕ) (w w' : World) (s : String)
        → IsLabelled r.headers coding
        → Brings fuel r.body w sent w'
        → decoded coding sent ≡ ok (as_bytes s)
        → text x c fuel r w ≡ (ok s, w')
    unfolding text
    text-as_bytes fuel r coding sent w w' s e b d =
        rw (bytes_lem fuel r coding sent w w' e b, d, from_utf8-as_bytes s) refl
