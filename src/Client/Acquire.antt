-- ===== src/Client/Acquire.antt =====
-- src/client/pool.rs, `execute_with_redirects`: taking a connection out of the pool, and sending a
-- request over it, each with the fallback from HTTP/3 to HTTP/2.
use quik.Base.{ℕ, zero, suc, String, Bool, false, Option, none, some, List, if◌then◌else◌}
use quik.Failure.{Error, out_of_fuel}
use quik.Effect.{pure, raise, fail, ◌>>=◌, ◌>>◌, attempt, case_option, gets, modify}
use quik.Externals.{Externals, call}
use quik.Keys.{pool_key, origin_key}
use quik.AltSvc
use quik.Response.{Request, Response}
use quik.Client.{
  PooledConnection, http2, http3, Client, Act, case_connection, outside, send, open_slot, slot,
  set_slot, dial,
}

module _ (x : Externals) where
  open x use {Foreign}

  -- `self.alt_svc_cache.remove(origin_key)`.
  unfoldable pub evict : String → Act x (Unit {0})
  evict origin = modify (λ c. record c { alt_svc_cache = AltSvc.remove c.alt_svc_cache origin })

  -- The key of a slot of this client.
  abbrev pub key : Client x → String → ℕ → Bool → String
  key c authority port h3 = pool_key c.proxy authority port h3

  -- A new connection, kept in the slot.
  unfoldable pub dial_into : String → String → ℕ → Bool → Act x (PooledConnection x)
  dial_into k authority port h3 = do
    conn ← dial x authority port h3
    set_slot x k (some conn)
    pure conn

  -- What the slot of HTTP/2 holds, or a new connection: the fallback after an HTTP/3 dial failed.
  unfoldable pub fall_back_dial : String → ℕ → Act x (PooledConnection x)
  unfolding dial_into
  fall_back_dial authority port = do
    k ← gets (λ c. key c authority port false)
    open_slot x k
    held ← gets (slot x k)
    case_option held (dial_into k authority port false) pure

  unfoldable pub dial_or_fall_back : String → String → ℕ → Bool → Act x (PooledConnection x)
  unfolding dial_into fall_back_dial evict
  dial_or_fall_back k authority port h3 =
      attempt (dial x authority port h3) (λ conn. set_slot x k (some conn) >> pure conn)
        (λ e.
          if h3
          then evict (origin_key authority port) >> fall_back_dial authority port
          else raise e)

  -- The loop: a connection that is not ready any more leaves its slot, and the next round dials.
  unfoldable pub acquire_loop : ℕ → String → String → ℕ → Bool → Act x (PooledConnection x)
  unfolding dial_or_fall_back
  acquire_loop zero k authority port h3 = fail out_of_fuel
  acquire_loop (suc fuel) k authority port h3 = do
    held ← gets (slot x k)
    case_option held (dial_or_fall_back k authority port h3) (λ connection.
        case_connection x connection
          (λ conn.
            attempt (outside x (call Error.http2 (x.h2_ready conn.h2)))
              (λ h2. pure (http2 (record conn { h2 = h2 })))
              (λ e. set_slot x k none >> acquire_loop fuel k authority port h3))
          (λ session. pure (http3 session)))

  -- A second round finds the slot empty and ends.
  unfoldable pub acquire : String → ℕ → Bool → Act x (PooledConnection x)
  unfolding acquire_loop
  acquire authority port has_alt_svc = do
    k ← gets (λ c. key c authority port has_alt_svc)
    open_slot x k
    acquire_loop 2 k authority port has_alt_svc

  -- A connection for a request that HTTP/3 lost: the one kept for HTTP/2 if it is ready, or a new one.
  unfoldable pub reacquire : String → ℕ → Act x (PooledConnection x)
  unfolding dial_into
  reacquire authority port = do
    k ← gets (λ c. key c authority port false)
    open_slot x k
    held ← gets (slot x k)
    case_option held (dial_into k authority port false) (λ connection.
        case_connection x connection
          (λ conn.
            attempt (outside x (call Error.http2 (x.h2_ready conn.h2)))
              (λ h2.
                set_slot x k (some (http2 (record conn { h2 = h2 })))
                >> pure (http2 (record conn { h2 = h2 })))
              (λ e. dial_into k authority port false))
          (λ session. dial_into k authority port false))

  -- After HTTP/3 lost a request: the advertisement goes, and the request is made and sent again.
  unfoldable pub retry_over_http2 :
      String → ℕ → Act x (Request x) → Option (List ℕ) → Act x (Response x)
  unfolding reacquire evict
  retry_over_http2 authority port build body = do
    evict (origin_key authority port)
    conn ← reacquire authority port
    request ← build
    outside x (send x conn request body)

  -- `build` makes the request.
  unfoldable pub transmit :
      String → ℕ → Act x (Request x) → Option (List ℕ) → PooledConnection x → Act x (Response x)
  unfolding retry_over_http2
  transmit authority port build body pooled = do
    request ← build
    attempt (outside x (send x pooled request body)) pure (λ e.
        case_connection x pooled (λ conn. raise e)
          (λ session. retry_over_http2 authority port build body))
