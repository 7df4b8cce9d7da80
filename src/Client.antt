-- ===== src/Client.antt =====
-- src/client/pool.rs: the client, its connection slots and the dialling of a connection. What tasks
-- share behind locks is part of the client's state; one call runs at a time.
pub mod Acquire
pub mod Execute
pub mod Ending
pub mod Completion
pub mod Slots
pub mod Keeping
pub mod Resending
pub mod Fallback
pub mod Rounds
pub mod Chain
pub mod Race
pub mod Sent
pub mod Calls
pub mod Builder
pub mod Tests
use quik.Base.{
  ℕ, String, Bool, true, false, not, Option, none, some, List, [], ◌∷◌, if◌then◌else◌, lookup,
  get_elem?, format, u16_to_string, unwrap_or,
}
use quik.Base
use quik.Calls.{quic_verify_peer}
use quik.Failure.{
  Error, Failure, connect, invalid_url, other, other_of, of_kind, not_found, out_of_fuel,
}
use quik.Effect.{
  Result, ok, err, Effect, pure, raise, fail, ◌>>=◌, ◌>>◌, attempt, some_or, gets, modify,
}
use quik.Externals.{Externals, call, io}
use quik.Lock
use quik.Lock.{Lock}
use quik.Profile.{ChromeProfile}
use quik.Profile.Draw.{Draw}
use quik.Profile.Chrome148
use quik.Proxy.{Proxy}
use quik.Response.{Request, Response}
use quik.Connector
use quik.Connector.{QuikConnection, open_connection}
use quik.Quic
use quik.Quic.{QuicSession, told, configure_chrome_quic_transport}
use quik.AltSvc
use quik.AltSvc.{AltSvcCache}

module _ (x : Externals) where
  open x use {World, Foreign, CookieStore, Address, to_socket_addrs}

  pub data PooledConnection : Type 0 where
    http2 : QuikConnection x → PooledConnection
    http3 : QuicSession x → PooledConnection

  abbrev pub is_http3 : PooledConnection → Bool
  is_http3 (http2 conn) = false
  is_http3 (http3 conn) = true

  -- `match connection { Http2(conn) => f(conn), Http3(conn) => g(conn) }`.
  abbrev pub case_connection :
      {S A : Type 0}
      → PooledConnection
      → (QuikConnection x → Effect S Foreign A)
      → (QuicSession x → Effect S Foreign A)
      → Effect S Foreign A
  case_connection (http2 conn) f g s = f conn s
  case_connection (http3 conn) f g s = g conn s

  -- The pool maps a key to a slot, which is empty until a connection is made.
  pub record Client : Type 0 where
    pub pool : Lock (List (String × Option PooledConnection))
    pub profile : ChromeProfile
    pub proxy : Option Proxy
    pub cookie_store : Lock CookieStore
    pub hint_cache : Lock (List String)
    pub alt_svc_cache : AltSvcCache
    pub world : World

  pub record ClientBuilder : Type 0 where
    pub profile : Option ChromeProfile
    pub proxy : Option Proxy
    pub cookie_store : Option (Lock CookieStore)
    pub danger_accept_invalid_certs : Bool

  -- `ClientBuilder::build`, of the draws and the build's operating system, an empty cookie store and
  -- the world that the client acts on.
  unfoldable pub build : Draw → String → CookieStore → World → ClientBuilder → Client
  build draw target_os no_cookies world builder =
      let profile = unwrap_or builder.profile (Chrome148.profile_auto draw target_os) in
      record {
        pool = Lock.fresh [];
        profile =
            if builder.danger_accept_invalid_certs
            then record profile { tls = record profile.tls { verify_peer = false } }
            else profile;
        proxy = builder.proxy;
        cookie_store = unwrap_or builder.cookie_store (Lock.fresh no_cookies);
        hint_cache = Lock.fresh [];
        alt_svc_cache = AltSvc.empty;
        world = world;
      }

  abbrev pub Act : Type 0 → Type 0
  Act A = Effect Client Foreign A

  -- A call of the world's within the client.
  abbrev pub beside :
      {A : Type 0}
      → Client
      → Result (Failure Foreign) A × World
      → Result (Failure Foreign) A × Client
  beside c (r, w) = (r, record c { world = w })

  abbrev pub outside : {A : Type 0} → Effect World Foreign A → Act A
  outside m c = beside c (m c.world)

  -- `PooledConnection::send`.
  unfoldable pub send :
      PooledConnection → Request x → Option (List ℕ) → Effect World Foreign (Response x)
  send (http2 conn) request body = Connector.send x conn request body
  send (http3 conn) request body = Quic.send x conn request body

  -- `pool.entry(key).or_insert_with(empty)`.
  abbrev pub entry :
      String → List (String × Option PooledConnection) → List (String × Option PooledConnection)
  entry key pool = elim (lookup key pool) [ none ↦ Base.insert key none pool | some slot ↦ pool ]

  unfoldable pub open_slot : String → Act (Unit {0})
  open_slot key =
      gets (λ c. Lock.read c.pool)
      >>= some_or (connect (other "connection pool poisoned"))
      >>= (λ pool. modify (λ c. record c { pool = Lock.write (entry key) c.pool }))

  -- A slot, and its mutex, live as long as the client.
  unfoldable pub slot : String → Client → Option PooledConnection
  slot key c = unwrap_or (lookup key c.pool.value) none

  unfoldable pub set_slot : String → Option PooledConnection → Act (Unit {0})
  set_slot key connection =
      modify
        (λ c. record c { pool = record c.pool { value = Base.insert key connection c.pool.value } })

  unfoldable pub resolve : String → ℕ → Effect World Foreign Address
  resolve authority port = do
    addrs ← io (to_socket_addrs (format (authority ∷ ":" ∷ u16_to_string port ∷ [])))
    some_or (connect (of_kind not_found "could not resolve host")) (get_elem? addrs 0)

  -- HTTP/3 goes straight to the address; the proxy is for HTTP/2 only.
  unfoldable pub dial_h3 : String → ℕ → ChromeProfile → Effect World Foreign PooledConnection
  unfolding resolve
  dial_h3 authority port profile = do
    addr ← resolve authority port
    let local_addr : String = if x.is_ipv6 addr then "[::]:0" else "0.0.0.0:0"
    socket ← io (x.udp_bind local_addr)
    io (x.udp_connect socket addr)
    config ← configure_chrome_quic_transport x
    config ←
        (if profile.tls.verify_peer
          then pure config
          else call told (x.quic_call config (quic_verify_peer false)))
    conn ← call told (x.quic_connect authority local_addr addr config)
    tx ← (λ w. let (sender, w) = x.spawn_driver socket conn addr w in (ok sender, w))
    pure (http3 (record { tx = tx; profile = profile }))

  unfoldable pub dial_h2 :
      String → ℕ → ChromeProfile → Option Proxy → Effect World Foreign PooledConnection
  unfolding resolve
  dial_h2 authority port profile proxy = do
    addr ← resolve authority port
    conn ← open_connection x authority port addr profile proxy
    pure (http2 conn)

  unfoldable pub dial : String → ℕ → Bool → Act PooledConnection
  unfolding dial_h2 dial_h3
  dial authority port h3 c =
      if h3
      then outside (dial_h3 authority port c.profile) c
      else outside (dial_h2 authority port c.profile c.proxy) c
