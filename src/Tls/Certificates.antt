-- ===== src/Tls/Certificates.antt =====
-- src/tls/connector.rs: `BrotliCompressor`, by which the TLS library expands the certificates of a
-- server. The decompressor is the crate `brotli`'s, the output the TLS library's. The loop runs on
-- fuel.
use quik.Base.{ℕ, zero, suc, ◌==◌, Bool, true, false, List, length, if◌then◌else◌}
use quik.Effect.{Result, ok, err}

pub record BrotliLib (Foreign : Type 0) : Type 1 where
  pub Decompressor : Type 0
  pub new : List ℕ → ℕ → Decompressor
  pub read : Decompressor → ℕ → Result Foreign (List ℕ) × Decompressor
  pub Writer : Type 0
  pub write_all : Writer → List ℕ → Result Foreign (Unit {0}) × Writer

-- RFC 8879 numbers Brotli 2.
abbrev pub algorithm : ℕ
algorithm = 2

abbrev pub can_compress : Bool
can_compress = false

abbrev pub can_decompress : Bool
can_decompress = true

pub data Outcome (Foreign : Type 0) : Type 0 where
  finished : Outcome Foreign
  io_error : Foreign → Outcome Foreign
  out_of_fuel : Outcome Foreign

module _ {Foreign : Type 0} (b : BrotliLib Foreign) where
  open b use {Decompressor, Writer}

  unfoldable pub copy : ℕ → Decompressor → Writer → Outcome Foreign × Writer
  copy zero reader output = (out_of_fuel, output)
  copy (suc fuel) reader output = elim (b.read reader 4096).0 [
    | err e ↦ (io_error e, output)
    | ok buf ↦ if length buf == 0 then (finished, output) else elim (b.write_all output buf).0 [
      | err e ↦ (io_error e, (b.write_all output buf).1)
      | ok _ ↦ copy fuel (b.read reader 4096).1 (b.write_all output buf).1
    ]
  ]

  unfoldable pub decompress : ℕ → List ℕ → Writer → Outcome Foreign × Writer
  unfolding copy
  decompress fuel input output = copy fuel (b.new input 4096) output
