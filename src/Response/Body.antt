-- ===== src/Response/Body.antt =====
-- src/client/response.rs: `Response::bytes`, `text` and `json`. The decoders and the parser of JSON are other
-- crates'. The loop over the body runs on fuel.
use quik.Base.{ℕ, zero, suc, String, none, some, List, [], ◌++◌, unwrap_or, contains, if◌then◌else◌}
use quik.Failure.{Error, connect, other, http2, out_of_fuel}
use quik.Effect.{Result, ok, Effect, pure, fail, ◌>>=◌, lift, case_option}
use quik.Externals.{Externals, call}
use quik.Utf8.{Utf8Error, from_utf8, utf8_message}
use quik.Quic.{told}
use quik.Response.{ResponseBody, http2_body, http3_body, Response}

module _ (x : Externals) where
  open x use {World, Foreign, RecvStream, http}

  -- `read_to_end` of a `brotli_decompressor::Decompressor` and of a `flate2::read::GzDecoder`,
  -- `zstd::decode_all`, and `serde_json::from_slice`.
  pub record Codecs : Type 1 where
    pub brotli : List ℕ → Result Foreign (List ℕ)
    pub zstd : List ℕ → Result Foreign (List ℕ)
    pub gzip : List ℕ → Result Foreign (List ℕ)
    pub Json : Type 0
    pub from_slice : List ℕ → Result Foreign Json

  -- `while let Some(chunk) = body_stream.data().await`.
  unfoldable pub collect : ℕ → RecvStream → List ℕ → Effect World Foreign (List ℕ)
  collect zero body_stream collected = fail out_of_fuel
  collect (suc fuel) body_stream collected = do
    next ← call http2 (x.h2_data body_stream)
    case_option next (pure collected) (λ chunk. collect fuel chunk.1 (collected ++ chunk.0))

  unfoldable pub body_data : ℕ → ResponseBody x → Effect World Foreign (List ℕ)
  unfolding collect
  body_data fuel (http2_body body_stream) = collect fuel body_stream []
  body_data fuel (http3_body collected) = pure collected

  unfoldable pub encoding : http.HeaderMap → String
  encoding headers = elim (http.get headers "content-encoding") [
    | none ↦ ""
    | some v ↦ unwrap_or (http.to_str v) ""
  ]

  module _ (c : Codecs) where
    open c use {Json}

    unfoldable pub decode : String → List ℕ → Result Foreign (List ℕ)
    decode name collected =
        if contains name "br"
        then c.brotli collected
        else if contains name "zstd"
        then c.zstd collected
        else if contains name "gzip"
        then c.gzip collected
        else ok collected

    unfoldable pub bytes : ℕ → Response x → Effect World Foreign (List ℕ)
    unfolding body_data encoding decode
    bytes fuel r = do
      collected ← body_data fuel r.body
      lift told (decode (encoding r.headers) collected)

    unfoldable pub json : ℕ → Response x → Effect World Foreign Json
    unfolding bytes
    json fuel r = do collected ← bytes fuel r; lift told (c.from_slice collected)

    abbrev pub not_utf8 : Utf8Error → Error Foreign
    not_utf8 e = connect (other (utf8_message e))

    unfoldable pub text : ℕ → Response x → Effect World Foreign String
    unfolding bytes
    text fuel r = do collected ← bytes fuel r; lift not_utf8 (from_utf8 collected)
