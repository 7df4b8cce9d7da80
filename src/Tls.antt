-- ===== src/Tls.antt =====
-- src/tls/connector.rs: the TLS connector of a profile.
pub mod Alpn
pub mod Certificates
use quik.Base.{
  ℕ, ◌%◌, String, Bool, true, false, ◌==◌, List, [], ◌∷◌, ◌++◌, if◌then◌else◌, format, length,
  u16_to_string,
}
use quik.Calls.{
  TlsCall, set_min_proto_version, set_max_proto_version, set_cipher_list, set_curves_list,
  set_grease_enabled, set_permute_extensions, set_alpn_protos, enable_signed_cert_timestamps,
  set_signing_algorithm_prefs, set_verify_algorithm_prefs, add_brotli_certificate_compression,
  set_verify_none,
}
use quik.Profile.{TlsProfile}
use quik.Failure.{tls_build}
use quik.Effect.{Effect, pure, ◌>>=◌}
use quik.Externals.{Externals, call}

unfoldable pub group_name : ℕ → String
group_name group =
    if group == 4588
    then "X25519MLKEM768"
    else if group == 29
    then "X25519"
    else if group == 23
    then "P-256"
    else if group == 24
    then "P-384"
    else u16_to_string group

-- The groups after the first, each behind a colon.
unfoldable pub more_groups : List ℕ → String
more_groups [] = ""
more_groups (group ∷ groups) = format (":" ∷ group_name group ∷ more_groups groups ∷ [])

unfoldable pub curves_str : List ℕ → String
unfolding more_groups group_name
curves_str [] = ""
curves_str (group ∷ groups) = format (group_name group ∷ more_groups groups ∷ [])

-- Each protocol behind its length, cast to a u8.
unfoldable pub alpn_wire : List (List ℕ) → List ℕ
alpn_wire [] = []
alpn_wire (proto ∷ protos) = (length proto % 256) ∷ (proto ++ alpn_wire protos)

module _ (x : Externals) where
  open x use {World, Foreign, SslBuilder, ssl_builder, tls_call}

  abbrev tls : SslBuilder → TlsCall → Effect World Foreign SslBuilder
  tls builder c = call tls_build (tls_call builder c)

  abbrev tls_if : Bool → SslBuilder → TlsCall → Effect World Foreign SslBuilder
  tls_if test builder c = if test then tls builder c else pure builder

  unfoldable pub build_connector : TlsProfile → Effect World Foreign SslBuilder
  unfolding curves_str alpn_wire
  build_connector profile = do
    builder ← call tls_build ssl_builder
    builder ← tls builder (set_min_proto_version profile.min_version)
    builder ← tls builder (set_max_proto_version profile.max_version)
    builder ← tls builder (set_cipher_list profile.cipher_list)
    builder ← tls builder (set_curves_list (curves_str profile.curves))
    builder ← tls_if profile.grease_enabled builder (set_grease_enabled true)
    builder ← tls_if profile.permute_extensions builder (set_permute_extensions true)
    builder ← tls builder (set_alpn_protos (alpn_wire profile.alpn_protocols))
    builder ← tls builder enable_signed_cert_timestamps
    builder ← tls builder (set_signing_algorithm_prefs profile.sigalgs)
    builder ← tls builder (set_verify_algorithm_prefs profile.sigalgs)
    builder ← tls_if profile.compress_certificate builder add_brotli_certificate_compression
    if profile.verify_peer then pure builder else tls builder set_verify_none
