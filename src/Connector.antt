-- ===== src/Connector.antt =====
-- src/client/connector.rs: opening an HTTP/2 connection, and a request over it.
pub mod Alps
pub mod Tests
use quik.Base.{
  ℕ, String, Bool, true, false, Option, none, some, List, [], ◌∷◌, ◌++◌, if◌then◌else◌, codes,
  u16_be, u32_be,
}
use quik.Calls.{set_status_type_ocsp, set_enable_ech_grease, add_application_settings}
use quik.Profile.{ChromeProfile, SettingsFrame}
use quik.Failure.{Error, connect, other, tls_build, tls_handshake, http2}
use quik.Effect.{Effect, pure, ◌>>=◌, ◌>>◌, attempt, raise}
use quik.Externals.{Externals, call, io}
use quik.Proxy.{Proxy, dial_proxy}
use quik.Tls.{build_connector}
use quik.Handshake.{configure_builder}
use quik.Response.{Request, Response, http2_body}

unfoldable pub extra_payload : List (ℕ × ℕ) → List ℕ
extra_payload [] = []
extra_payload ((id, value) ∷ extra) = u16_be id ++ (u32_be value ++ extra_payload extra)

-- Four settings of six bytes, and the extra ones.
unfoldable pub build_alps_payload : SettingsFrame → List (ℕ × ℕ) → List ℕ
unfolding extra_payload
build_alps_payload settings extra =
    u16_be 1
    ++ (u32_be settings.header_table_size
        ++ (u16_be 2
            ++ (u32_be (if settings.enable_push then 1 else 0)
                ++ (u16_be 4
                    ++ (u32_be settings.initial_window_size
                        ++ (u16_be 6
                            ++ (u32_be settings.max_header_list_size ++ extra_payload extra)))))))

module _ (x : Externals) where
  open x use {
    World, Foreign, Address, Tcp, SslConfig, TlsStream, SendRequest, tcp_connect, h2_send_request,
    h2_send_data, h2_response,
  }

  pub record QuikConnection : Type 0 where
    pub h2 : SendRequest
    pub profile : ChromeProfile

  -- An ALPS call that the library refuses is an error of the crate's own making.
  unfoldable pub inject_settings : SslConfig → ChromeProfile → Effect World Foreign SslConfig
  inject_settings config profile = do
    config ←
        (if profile.tls.enable_ech_grease
          then call tls_build (x.config_call config set_enable_ech_grease)
          else pure config)
    if profile.tls.alps_enabled
        then attempt
            (call tls_build (
              x.config_call config (
                add_application_settings (codes "h2")
                  (build_alps_payload profile.h2.settings profile.tls.alps_extra_settings))))
            pure (λ _. raise (connect (other "failed to inject ALPS settings")))
        else pure config

  unfoldable pub dial_tcp : String → ℕ → Address → Option Proxy → Effect World Foreign Tcp
  dial_tcp host port addr none = io (tcp_connect addr)
  dial_tcp host port addr (some p) = dial_proxy x p host port

  unfoldable pub open_connection :
      String → ℕ → Address → ChromeProfile → Option Proxy → Effect World Foreign QuikConnection
  unfolding inject_settings dial_tcp
  open_connection host port addr profile proxy = do
    tcp ← dial_tcp host port addr proxy
    connector ← build_connector x profile.tls
    config ← call tls_build (x.configure connector)
    config ← call tls_build (x.config_call config set_status_type_ocsp)
    config ← inject_settings config profile
    tls_stream ← call tls_handshake (x.tls_handshake config host tcp)
    h2 ← call http2 (x.h2_handshake (configure_builder profile.h2) tls_stream)
    pure (record { h2 = h2; profile = profile })

  -- `QuikConnection::send`. A body is sent after the head, and the answer awaited last.
  unfoldable pub send :
      QuikConnection → Request x → Option (List ℕ) → Effect World Foreign (Response x)
  send connection request none = do
    started ←
        call http2 (h2_send_request connection.h2 request.method request.uri request.headers true)
    (status, headers, stream) ← call http2 (h2_response started.0)
    pure (record {
      status = status;
      headers = headers;
      body = http2_body stream;
      url = x.uri_to_string request.uri;
    })
  send connection request (some bytes) = do
    started ←
        call http2 (h2_send_request connection.h2 request.method request.uri request.headers false)
    call http2 (h2_send_data started.1 bytes true)
    (status, headers, stream) ← call http2 (h2_response started.0)
    pure (record {
      status = status;
      headers = headers;
      body = http2_body stream;
      url = x.uri_to_string request.uri;
    })
