-- ===== src/Connector/Alps.antt =====
-- The ALPS payload of src/client/connector.rs and the SETTINGS that src/http2/handshake.rs announces.
use quik.Base.{
  ℕ, ◌+◌, ◌*◌, ◌/◌, ◌%◌, ◌<◌, ◌≡◌, refl, Bool, true, false, Option, none, some, List, [], ◌∷◌, ◌++◌,
  length, All, arith, if◌then◌else◌, u16_be, u32_be, u16_of, u32_of,
}
use quik.Calls.{
  SettingId, header_table_size, enable_push, initial_window_size, max_header_list_size, Http2Call,
  settings_order, set_header_table_size, set_enable_push, set_initial_window_size,
  set_max_header_list_size,
}
use quik.Profile.{SettingsFrame, Http2Profile}
use quik.Handshake.{configure_builder}
use quik.Connector.{extra_payload, build_alps_payload}

-- The identifiers of RFC 9113.
unfoldable pub setting_code : SettingId → ℕ
setting_code header_table_size = 1
setting_code enable_push = 2
setting_code initial_window_size = 4
setting_code max_header_list_size = 6

-- The value that the calls give a setting, 0 when none does.
unfoldable pub setting_value : SettingId → List Http2Call → ℕ
setting_value header_table_size (set_header_table_size n ∷ calls) = n
setting_value enable_push (set_enable_push b ∷ calls) = if b then 1 else 0
setting_value initial_window_size (set_initial_window_size n ∷ calls) = n
setting_value max_header_list_size (set_max_header_list_size n ∷ calls) = n
setting_value id (c ∷ calls) = setting_value id calls
setting_value id [] = 0

-- The SETTINGS frame of a builder: the settings in their order, each with its value.
unfoldable pub announced_as : List SettingId → List Http2Call → List (ℕ × ℕ)
unfolding setting_code setting_value
announced_as [] calls = []
announced_as (id ∷ ids) calls = (setting_code id, setting_value id calls) ∷ announced_as ids calls

unfoldable pub announced : List Http2Call → List (ℕ × ℕ)
unfolding announced_as
announced (settings_order ids ∷ calls) = announced_as ids calls
announced calls = []

-- The body of a SETTINGS frame: identifiers of two bytes, each with a value of four.
pub settings_decode : List ℕ → Option (List (ℕ × ℕ))
settings_decode [] = some []
settings_decode (a ∷ b ∷ c ∷ d ∷ e ∷ f ∷ bytes) = elim (settings_decode bytes) [
  | none ↦ none
  | some settings ↦ some ((u16_of a b, u32_of c d e f) ∷ settings)
]
settings_decode _ = none

abbrev pub Fits : ℕ × ℕ → Type 0
Fits (id, value) = (id < 65536) × (value < 4294967296)

pub record FrameFits (settings : SettingsFrame) : Type 0 where
  pub header_table_size_lt : settings.header_table_size < 4294967296
  pub initial_window_size_lt : settings.initial_window_size < 4294967296
  pub max_header_list_size_lt : settings.max_header_list_size < 4294967296

flag_lt : (b : Bool) → (if b then 1 else 0) < 4294967296
flag_lt true = omega arith
flag_lt false = omega arith

u16_of-u16_be : (n : ℕ) → n < 65536 → u16_of (n / 256 % 256) (n % 256) ≡ n
u16_of-u16_be n h = omega arith

u32_of-u32_be :
    (n : ℕ)
    → n < 4294967296
    → u32_of (n / 16777216 % 256) (n / 65536 % 256) (n / 256 % 256) (n % 256) ≡ n
u32_of-u32_be n h = omega arith

decode_entry :
    (id value : ℕ) (bytes : List ℕ) (settings : List (ℕ × ℕ))
    → id < 65536
    → value < 4294967296
    → settings_decode bytes ≡ some settings
    → settings_decode (u16_be id ++ (u32_be value ++ bytes)) ≡ some ((id, value) ∷ settings)
unfolding settings_decode
decode_entry id value bytes settings h k e = rw (e, u16_of-u16_be id h, u32_of-u32_be value k) refl

settings_decode-extra_payload :
    (extra : List (ℕ × ℕ)) → All Fits extra → settings_decode (extra_payload extra) ≡ some extra
unfolding extra_payload
settings_decode-extra_payload [] h = unfold settings_decode in refl
settings_decode-extra_payload ((id, value) ∷ extra) ((h, k), hs) =
    decode_entry id value (extra_payload extra) extra h k (settings_decode-extra_payload extra hs)

-- If the numbers of the profile fit their widths, the ALPS payload is the body of a SETTINGS frame
-- that holds the settings the HTTP/2 builder announces, identifier by identifier with the same
-- values and in the same order, followed by the extra settings of the profile.
pub settings_decode-build_alps_payload :
    (profile : Http2Profile) (extra : List (ℕ × ℕ))
    → FrameFits profile.settings
    → All Fits extra
    → settings_decode (build_alps_payload profile.settings extra)
      ≡ some (announced (configure_builder profile) ++ extra)
unfolding build_alps_payload configure_builder announced announced_as setting_code setting_value
settings_decode-build_alps_payload profile extra fits h =
    let settings = profile.settings in
    decode_entry 1 settings.header_table_size _ _ (omega arith) fits.header_table_size_lt (
      decode_entry 2 _ _ _ (omega arith) (flag_lt settings.enable_push) (
        decode_entry 4 settings.initial_window_size _ _ (omega arith) fits.initial_window_size_lt (
          decode_entry 6 settings.max_header_list_size _ _ (omega arith)
            fits.max_header_list_size_lt (settings_decode-extra_payload extra h))))

length-extra_payload : (extra : List (ℕ × ℕ)) → length (extra_payload extra) ≡ 6 * length extra
unfolding extra_payload
length-extra_payload [] = refl
length-extra_payload ((id, value) ∷ extra) = omega (arith, length-extra_payload extra)

-- An ALPS payload is six bytes for each of the four settings and each extra one.
pub length-build_alps_payload :
    (settings : SettingsFrame) (extra : List (ℕ × ℕ))
    → length (build_alps_payload settings extra) ≡ 24 + 6 * length extra
unfolding build_alps_payload
length-build_alps_payload settings extra = omega (arith, length-extra_payload extra)
