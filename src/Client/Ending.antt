-- ===== src/Client/Ending.antt =====
-- Every call of the client ends by itself: in a value, an error or a panic.
use quik.Base.{ℕ, String, Bool, true, false, Option, none, some, List, [], ◌∷◌, if◌then◌else◌}
use quik.Failure.{Error, Failure, panicked}
use quik.Calls.{QuicCall}
use quik.Effect.{
  Result, ok, err, Effect, pure, raise, fail, lift, some_or, case_option, Ended, Ended-continue,
  Ended-settle,
}
use quik.Externals.{Externals, ExternalLaws, call, Ended-io, Ended-wrapped}
use quik.Profile.{ChromeProfile, TlsProfile}
use quik.Proxy.{Proxy, http, socks5, dial_proxy, dial_socks5_proxy, drain_address}
use quik.Proxy.Connect.{dial_http_proxy_ends}
use quik.Tls.{build_connector}
use quik.Connector
use quik.Connector.{inject_settings, dial_tcp, open_connection}
use quik.Quic
use quik.Quic.{apply_calls, configure_chrome_quic_transport, transport_calls}
use quik.Response.{Request}
use quik.Client.{
  PooledConnection, http2, http3, Client, case_connection, beside, send, resolve, dial_h2, dial_h3,
  dial,
}

module _ {S X A : Type 0} where
  pub Ended-pure : (a : A) (s : S) → Ended {X = X} (pure a s)
  Ended-pure a s = record { has_ended = λ q. cc }

  pub Ended-raise : (e : Error X) (s : S) → Ended {A = A} (raise e s)
  Ended-raise e s = record { has_ended = λ q. cc }

  pub Ended-panic : (s : S) → Ended {X = X} {A = A} (fail panicked s)
  Ended-panic s = record { has_ended = λ q. cc }

  pub Ended-if :
      (b : Bool) (m k : Effect S X A) (s : S)
      → ((t : S) → Ended (m t))
      → ((t : S) → Ended (k t))
      → Ended ((if b then m else k) s)
  Ended-if true m k s p q = p s
  Ended-if false m k s p q = q s

  pub Ended-lift :
      {E : Type 0} (wrap : E → Error X) (r : Result E A) (s : S) → Ended (lift wrap r s)
  Ended-lift wrap (ok a) s = record { has_ended = λ q. cc }
  Ended-lift wrap (err e) s = record { has_ended = λ q. cc }

  pub Ended-some_or : (e : Error X) (o : Option A) (s : S) → Ended (some_or e o s)
  Ended-some_or e none s = record { has_ended = λ q. cc }
  Ended-some_or e (some a) s = record { has_ended = λ q. cc }

  pub Ended-case_option :
      {B : Type 0} (o : Option B) (m : Effect S X A) (f : B → Effect S X A) (s : S)
      → ((t : S) → Ended (m t))
      → ((b : B) (t : S) → Ended (f b t))
      → Ended (case_option o m f s)
  Ended-case_option none m f s p q = p s
  Ended-case_option (some b) m f s p q = q b s

module _ (x : Externals) (l : ExternalLaws x) where
  open x use {World, Foreign, SslBuilder, SslConfig, Tcp}

  drain_address_ends : (t : Tcp) (kind : ℕ) (w : World) → Ended (drain_address x t kind w)
  unfolding drain_address
  drain_address_ends t kind w =
      search (Ended-continue, Ended-io, Ended-if, Ended-pure, Ended-raise) depth 40

  dial_socks5_proxy_ends :
      (proxy_addr host : String) (port : ℕ) (w : World)
      → Ended (dial_socks5_proxy x proxy_addr host port w)
  unfolding dial_socks5_proxy
  dial_socks5_proxy_ends proxy_addr host port w =
      search (Ended-continue, Ended-io, Ended-if, Ended-pure, Ended-raise, drain_address_ends) depth
        40

  dial_tcp_ends :
      (host : String) (port : ℕ) (addr : x.Address) (p : Option Proxy) (w : World)
      → Ended (dial_tcp x host port addr p w)
  unfolding dial_tcp dial_proxy
  dial_tcp_ends host port addr none w = search (Ended-io) depth 40
  dial_tcp_ends host port addr (some (http a)) w = dial_http_proxy_ends x l a host port w
  dial_tcp_ends host port addr (some (socks5 a)) w = dial_socks5_proxy_ends a host port w

  build_connector_ends : (p : TlsProfile) (w : World) → Ended (build_connector x p w)
  unfolding build_connector
  build_connector_ends p w = search (Ended-continue, Ended-wrapped, Ended-if, Ended-pure) depth 40

  inject_settings_ends :
      (c : SslConfig) (p : ChromeProfile) (w : World) → Ended (inject_settings x c p w)
  unfolding inject_settings
  inject_settings_ends c p w =
      search (Ended-continue, Ended-settle, Ended-wrapped, Ended-if, Ended-pure, Ended-raise) depth
        40

  -- Opening a connection ends, directly or through a proxy of either kind.
  pub open_connection_ends :
      (host : String) (port : ℕ) (addr : x.Address) (p : ChromeProfile) (proxy : Option Proxy)
      (w : World)
      → Ended (open_connection x host port addr p proxy w)
  unfolding open_connection
  open_connection_ends host port addr p proxy w =
      search
        (
          Ended-continue, Ended-wrapped, Ended-pure, dial_tcp_ends, build_connector_ends,
          inject_settings_ends,
        )
        depth 40

  apply_calls_ends :
      (calls : List QuicCall) (c : x.QuicConfig) (w : World) → Ended (apply_calls x calls c w)
  unfolding apply_calls
  apply_calls_ends [] c w = Ended-pure c w
  apply_calls_ends (call ∷ calls) c w =
      search (Ended-continue, Ended-wrapped, apply_calls_ends calls) depth 40

  configure_ends : (w : World) → Ended (configure_chrome_quic_transport x w)
  unfolding configure_chrome_quic_transport
  configure_ends w = search (Ended-continue, Ended-wrapped, apply_calls_ends) depth 40

  resolve_ends : (host : String) (port : ℕ) (w : World) → Ended (resolve x host port w)
  unfolding resolve
  resolve_ends host port w = search (Ended-continue, Ended-io, Ended-some_or) depth 40

  dial_h2_ends :
      (host : String) (port : ℕ) (p : ChromeProfile) (proxy : Option Proxy) (w : World)
      → Ended (dial_h2 x host port p proxy w)
  unfolding dial_h2
  dial_h2_ends host port p proxy w =
      search (Ended-continue, Ended-pure, resolve_ends, open_connection_ends) depth 40

  dial_h3_ends :
      (host : String) (port : ℕ) (p : ChromeProfile) (w : World) → Ended (dial_h3 x host port p w)
  unfolding dial_h3
  dial_h3_ends host port p w =
      search
        (
          Ended-continue, Ended-pure, Ended-io, Ended-wrapped, Ended-if, resolve_ends,
          configure_ends,
        )
        depth 40

  pub Ended-beside :
      {A : Type 0} (c : Client x) (r : Result (Failure Foreign) A × World)
      → Ended r
      → Ended (beside x c r)
  Ended-beside c (r, w) h = record { has_ended = h.has_ended }

  pub Ended-case_connection :
      {S A : Type 0} (o : PooledConnection x) (f : Connector.QuikConnection x → Effect S Foreign A)
      (g : Quic.QuicSession x → Effect S Foreign A) (s : S)
      → ((b : Connector.QuikConnection x) (t : S) → Ended (f b t))
      → ((b : Quic.QuicSession x) (t : S) → Ended (g b t))
      → Ended (case_connection x o f g s)
  Ended-case_connection (http2 b) f g s p q = p b s
  Ended-case_connection (http3 b) f g s p q = q b s

  -- Dialling ends, over either protocol.
  pub dial_ends :
      (host : String) (port : ℕ) (h3 : Bool) (c : Client x) → Ended (dial x host port h3 c)
  unfolding dial
  dial_ends host port true c = Ended-beside c _ (dial_h3_ends host port c.profile c.world)
  dial_ends host port false c = Ended-beside c _ (dial_h2_ends host port c.profile c.proxy c.world)

  pub send_ends :
      (conn : PooledConnection x) (r : Request x) (body : Option (List ℕ)) (w : World)
      → Ended (send x conn r body w)
  unfolding send Connector.send Quic.send
  send_ends (http2 conn) r none w = search (Ended-continue, Ended-wrapped, Ended-pure) depth 40
  send_ends (http2 conn) r (some b) w = search (Ended-continue, Ended-wrapped, Ended-pure) depth 40
  send_ends (http3 conn) r body w =
      search (Ended-continue, Ended-wrapped, Ended-pure, Ended-lift) depth 40
