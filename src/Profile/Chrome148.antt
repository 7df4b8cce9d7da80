-- ===== src/Profile/Chrome148.antt =====
-- src/profile/chrome_148.rs: the identity of Chrome 148.
use quik.Base.{ℕ, ◌==◌, String, true, false, List, [], ◌∷◌, str_eq, if◌then◌else◌, format, codes}
use quik.Profile.{
  Platform, mac_os_arm, mac_os_x86, windows_x64, linux_x64, TlsProfile, PseudoOrder, method,
  authority, scheme, path, Http2Profile, ChromeProfile,
}
use quik.Profile.Draw.{Draw, pick}

abbrev alps_extra_settings : List (ℕ × ℕ)
alps_extra_settings = []

abbrev cipher_list : String
cipher_list = format (
    "TLS_AES_128_GCM_SHA256:" ∷ "TLS_AES_256_GCM_SHA384:" ∷ "TLS_CHACHA20_POLY1305_SHA256:"
    ∷ "ECDHE-ECDSA-AES128-GCM-SHA256:" ∷ "ECDHE-RSA-AES128-GCM-SHA256:"
    ∷ "ECDHE-ECDSA-AES256-GCM-SHA384:" ∷ "ECDHE-RSA-AES256-GCM-SHA384:"
    ∷ "ECDHE-ECDSA-CHACHA20-POLY1305:" ∷ "ECDHE-RSA-CHACHA20-POLY1305:" ∷ "ECDHE-RSA-AES128-SHA:"
    ∷ "ECDHE-RSA-AES256-SHA:" ∷ "AES128-GCM-SHA256:" ∷ "AES256-GCM-SHA384:" ∷ "AES128-SHA:"
    ∷ "AES256-SHA" ∷ [])

abbrev curves : List ℕ
curves = 4588 ∷ 29 ∷ 23 ∷ 24 ∷ []

abbrev alpn_protocols : List (List ℕ)
alpn_protocols = codes "h2" ∷ codes "http/1.1" ∷ []

abbrev sigalgs : List ℕ
sigalgs = 0x0403 ∷ 0x0804 ∷ 0x0401 ∷ 0x0503 ∷ 0x0805 ∷ 0x0501 ∷ 0x0806 ∷ 0x0601 ∷ 0x0201 ∷ []

abbrev pseudo_order : List PseudoOrder
pseudo_order = method ∷ authority ∷ scheme ∷ path ∷ []

unfoldable pub base_tls : TlsProfile
base_tls = record {
  min_version = 0x0303;
  max_version = 0x0304;
  cipher_list = cipher_list;
  curves = curves;
  grease_enabled = true;
  permute_extensions = true;
  enable_ech_grease = true;
  alps_enabled = true;
  alps_use_new_codepoint = true;
  alps_extra_settings = alps_extra_settings;
  compress_certificate = true;
  session_ticket_enabled = true;
  alpn_protocols = alpn_protocols;
  sigalgs = sigalgs;
  verify_peer = true;
}

unfoldable pub base_h2 : Http2Profile
base_h2 = record {
  settings = record {
    header_table_size = 65_536;
    enable_push = false;
    initial_window_size = 6_291_456;
    max_header_list_size = 262_144;
  };
  initial_connection_window_size = 15_728_640;
  pseudo_order = pseudo_order;
  headers_priority = record { dep = 0; weight = 255; exclusive = true };
}

abbrev brands : List String
brands = "Not.A/Brand" ∷ "Not.A\\Brand" ∷ "Not.A)Brand" ∷ "Not.A;Brand" ∷ "Not.A=Brand" ∷ []

unfoldable pub generate_sec_ch_ua : Draw → String
generate_sec_ch_ua d =
    let brand = pick brands d.brand in
    let v : String = "8" in
    if d.position == 0
    then format (
        "\"" ∷ brand ∷ "\";v=\"" ∷ v ∷ "\", \"Chromium\";v=\"148\", \"Google Chrome\";v=\"148\""
        ∷ [])
    else if d.position == 1
    then format (
        "\"Chromium\";v=\"148\", \"" ∷ brand ∷ "\";v=\"" ∷ v ∷ "\", \"Google Chrome\";v=\"148\""
        ∷ [])
    else format (
        "\"Chromium\";v=\"148\", \"Google Chrome\";v=\"148\", \"" ∷ brand ∷ "\";v=\"" ∷ v ∷ "\""
        ∷ [])

unfoldable pub chrome_148_macos_arm : Draw → ChromeProfile
unfolding base_tls base_h2 generate_sec_ch_ua
chrome_148_macos_arm d = record {
  version = 148;
  platform = mac_os_arm;
  tls = base_tls;
  h2 = base_h2;
  headers = record {
    user_agent =
        "Mozilla/5.0 (Macintosh; Intel Mac OS X 10_15_7) AppleWebKit/537.36 (KHTML, like Gecko) Chrome/148.0.0.0 Safari/537.36";
    sec_ch_ua = generate_sec_ch_ua d;
    sec_ch_ua_platform = "\"macOS\"";
    sec_ch_ua_platform_version = "\"14.0.0\"";
    include_priority_header = true;
    zstd_encoding = true;
    accept_language = "en-US,en;q=0.9";
  };
}

unfoldable pub chrome_148_windows_x64 : Draw → ChromeProfile
unfolding base_tls base_h2 generate_sec_ch_ua
chrome_148_windows_x64 d = record {
  version = 148;
  platform = windows_x64;
  tls = base_tls;
  h2 = base_h2;
  headers = record {
    user_agent =
        "Mozilla/5.0 (Windows NT 10.0; Win64; x64) AppleWebKit/537.36 (KHTML, like Gecko) Chrome/148.0.0.0 Safari/537.36";
    sec_ch_ua = generate_sec_ch_ua d;
    sec_ch_ua_platform = "\"Windows\"";
    sec_ch_ua_platform_version = "\"13.0.0\"";
    include_priority_header = true;
    zstd_encoding = true;
    accept_language = "en-US,en;q=0.9";
  };
}

unfoldable pub chrome_148_linux_x64 : Draw → ChromeProfile
unfolding base_tls base_h2 generate_sec_ch_ua
chrome_148_linux_x64 d = record {
  version = 148;
  platform = linux_x64;
  tls = base_tls;
  h2 = base_h2;
  headers = record {
    user_agent =
        "Mozilla/5.0 (X11; Linux x86_64) AppleWebKit/537.36 (KHTML, like Gecko) Chrome/148.0.0.0 Safari/537.36";
    sec_ch_ua = generate_sec_ch_ua d;
    sec_ch_ua_platform = "\"Linux\"";
    sec_ch_ua_platform_version = "\"\"";
    include_priority_header = true;
    zstd_encoding = true;
    accept_language = "en-US,en;q=0.9";
  };
}

unfoldable pub profile : Draw → Platform → ChromeProfile
unfolding chrome_148_macos_arm chrome_148_windows_x64 chrome_148_linux_x64
profile d mac_os_arm = chrome_148_macos_arm d
profile d mac_os_x86 = chrome_148_macos_arm d
profile d windows_x64 = chrome_148_windows_x64 d
profile d linux_x64 = chrome_148_linux_x64 d

-- The build's `target_os` is an argument.
unfoldable pub profile_auto : Draw → String → ChromeProfile
unfolding chrome_148_macos_arm chrome_148_windows_x64 chrome_148_linux_x64
profile_auto d target_os =
    if str_eq target_os "macos"
    then chrome_148_macos_arm d
    else if str_eq target_os "windows"
    then chrome_148_windows_x64 d
    else chrome_148_linux_x64 d
