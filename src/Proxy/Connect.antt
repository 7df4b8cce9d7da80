-- ===== src/Proxy/Connect.antt =====
-- The HTTP CONNECT handshake of src/client/proxy.rs ends, and opens a tunnel only on a 200.
use quik.Base.{
  ℕ, zero, suc, ◌+◌, ◌-◌, ◌<◌, ◌≤◌, String, true, ◌==◌, List, [], ◌++◌, length, length-append,
  arith, holds, ◌≡◌, Bool-cases, inl, inr,
}
use quik.Effect.{ok, Call-cases, Ended, Ended-continue}
use quik.Externals.{Externals, ExternalLaws, Ended-io}
use quik.Proxy.{await_head, dial_http_proxy, blank_line, is_success}

module _ (x : Externals) where
  open x use {World, Foreign, Tcp, read, tcp_connect_name, write_all}

  -- Reading on from `r` at `w` comes to `r'` at `w'`.
  pub data Reads (t : Tcp) : List ℕ → World → List ℕ → World → Type 0 where
    done : {r : List ℕ} {w : World} → Reads t r w r w
    again :
        {r r' bytes : List ℕ} {w w' w'' : World}
        → read t (4096 - length r) w ≡ (ok bytes, w')
        → Reads t (r ++ bytes) w' r' w''
        → Reads t r w r' w''

  -- What was read, up to the end of the handshake.
  pub record Accepted (t s : Tcp) (r : List ℕ) (w w' : World) : Type 0 where
    pub head : List ℕ
    pub reads : Reads t r w head w'
    pub complete : holds head blank_line ≡ true
    pub success : is_success head ≡ true
    pub same : s ≡ t

  module _ (l : ExternalLaws x) where
    await_head_ends :
        (fuel : ℕ) (t : Tcp) (response : List ℕ) (w : World)
        → 4096 < fuel + length response
        → length response ≤ 4096
        → Ended (await_head x fuel t response w)
    unfolding await_head
    await_head_ends zero t response w h k = absurd (omega arith)
    await_head_ends (suc fuel) t response w h k =
        elim (Call-cases (read t (4096 - length response) w)) [
          | inl (e, w', failed) ↦ rw (failed, await_head) (record { has_ended = λ q. cc })
          | inr (bytes, w', got) ↦ elim (Bool-cases (length bytes == 0)) [
            | inl closed ↦ rw (got, closed, await_head) (record { has_ended = λ q. cc })
            | inr more ↦ elim (Bool-cases (holds (response ++ bytes) blank_line)) [
              | inl full ↦ elim (Bool-cases (is_success (response ++ bytes))) [
                | inl good ↦ rw (got, more, full, good, await_head) (record { has_ended = λ q. cc })
                | inr bad ↦ rw (got, more, full, bad, await_head) (record { has_ended = λ q. cc })
              ]
              | inr partial ↦
                  let grown : length (response ++ bytes) ≡ length response + length bytes =
                    length-append response bytes in
                  let bound = l.read-length t (4096 - length response) w w' bytes got in
                  rw (got, more, partial, await_head)
                    (await_head_ends fuel t (response ++ bytes) w' (ground arith) (omega arith))
            ]
          ]
        ]

    head_ends : (t : Tcp) (w : World) → Ended (await_head x 4097 t [] w)
    head_ends t w = await_head_ends 4097 t [] w (omega arith) (omega arith)

    -- The handshake with an HTTP proxy ends: it gives a tunnel or an error, whatever the proxy sends
    -- and in however small pieces.
    pub dial_http_proxy_ends :
        (proxy_addr host : String) (port : ℕ) (w : World)
        → Ended (dial_http_proxy x proxy_addr host port w)
    unfolding dial_http_proxy
    dial_http_proxy_ends proxy_addr host port w = search (Ended-continue, Ended-io, head_ends)
