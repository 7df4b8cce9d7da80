-- ===== src/Profile.antt =====
-- src/profile/mod.rs: the data of an identity profile. Numbers are u8, u16 and u32 values, byte
-- strings are lists of numbers below 256, and a TLS version is the number that the `SslVersion`
-- constant stands for.
pub mod Draw
pub mod Chrome134
pub mod Chrome147
pub mod Chrome148
use quik.Base.{ℕ, String, Bool, List}

pub data Platform : Type 0 where
  mac_os_arm mac_os_x86 windows_x64 linux_x64 : Platform

pub record TlsProfile : Type 0 where
  pub min_version : ℕ
  pub max_version : ℕ
  pub cipher_list : String
  pub curves : List ℕ
  pub grease_enabled : Bool
  pub permute_extensions : Bool
  pub enable_ech_grease : Bool
  pub alps_enabled : Bool
  pub alps_use_new_codepoint : Bool
  pub alps_extra_settings : List (ℕ × ℕ)
  pub compress_certificate : Bool
  pub session_ticket_enabled : Bool
  pub alpn_protocols : List (List ℕ)
  pub sigalgs : List ℕ
  pub verify_peer : Bool

pub record SettingsFrame : Type 0 where
  pub header_table_size : ℕ
  pub enable_push : Bool
  pub initial_window_size : ℕ
  pub max_header_list_size : ℕ

pub data PseudoOrder : Type 0 where
  method authority scheme path : PseudoOrder

pub record HeadersPriority : Type 0 where
  pub dep : ℕ
  pub weight : ℕ
  pub exclusive : Bool

pub record Http2Profile : Type 0 where
  pub settings : SettingsFrame
  pub initial_connection_window_size : ℕ
  pub pseudo_order : List PseudoOrder
  pub headers_priority : HeadersPriority

pub record HeaderProfile : Type 0 where
  pub user_agent : String
  pub sec_ch_ua : String
  pub sec_ch_ua_platform : String
  pub sec_ch_ua_platform_version : String
  pub include_priority_header : Bool
  pub zstd_encoding : Bool
  pub accept_language : String

pub record ChromeProfile : Type 0 where
  pub version : ℕ
  pub platform : Platform
  pub tls : TlsProfile
  pub h2 : Http2Profile
  pub headers : HeaderProfile
