-- ===== src/Client/Race/Hop.antt =====
-- src/client/pool.rs: how a call alone takes a connection, sends its request and sends it again, as
-- turns of its task.
use quik.Base.{ℕ, true, false, Option, none, List, ◌≡◌, refl, inl, inr}
use quik.Failure.{Failure, error, panicked, out_of_fuel}
use quik.Effect.{Result, ok, ◌>>=◌, Call-cases, Effect}
use quik.Externals.{Externals}
use quik.Connector.{QuikConnection}
use quik.Keys.{origin_key}
use quik.Quic.{QuicSession}
use quik.Response.{Request, Response}
use quik.Client.{PooledConnection, http2, http3, Client, Act, outside, send}
use quik.Client.Acquire.{evict, acquire, retry_over_http2, transmit}
use quik.Client.Race.{
  Protocol, h3, h2, Task, peeking, sending, retrying, resending, done, failed, Origin, goes,
  with_slot, release, resent, step, cancel,
}
use quik.Client.Race.Endings.{set_task-same}
use quik.Client.Race.Shown.{Site, evict-Shows, outside-Shows}
use quik.Client.Race.Alone.{Outcome, Alike}
use quik.Client.Race.Acquiring.{advertised, acquire-IsRun}
use quik.Client.Race.Reacquiring.{reacquire-Serves}
use quik.Client.Race.Serving.{Ready, Serves, gives_up, arrives, then-Serves, by_step, by_drop}

module _ (x : Externals) (site : Site) (i : ℕ) where
  open x use {Foreign}
  open site use {host, port}

  module _ (build : Act x (Request x)) (body : Option (List ℕ))
      (builds : (c : Client x) → (request : Request x) × (build c ≡ (ok request, c))) where
    outside-Ready :
        {A : Type 0} (o : Origin) (m : Effect x.World Foreign A) (c d : Client x)
        (r : Result (Failure Foreign) A)
        → outside x m c ≡ (r, d)
        → Ready x site i o c
        → Ready x site i o d
    outside-Ready o m c d r e a = record {
      alike = outside-Shows x site _ _ m c d r e a.alike;
      idle_3 = a.idle_3;
      idle_2 = a.idle_2;
    }

    still :
        (o : Origin) (c : Client x) (t : Task) → Ready x site i o c → Ready x site i (goes i t o) c
    still o c t a = record { alike = a.alike; idle_3 = a.idle_3; idle_2 = a.idle_2 }

    -- Over a connection of HTTP/2 the task has ended before the request is sent.
    over_2-Serves :
        (conn : QuikConnection x) (n : ℕ) (o : Origin) (c : Client x)
        → Ready x site i o c
        → o.tasks i ≡ done h2 n
        → Serves x site i o (transmit x host port build body (http2 conn) c)
    unfolding transmit
    over_2-Serves conn n o c a t =
        let (request, b) = builds c in
        let m = send x (http2 conn) request body in
        elim (Call-cases (outside x m c)) [
          | inl (error f, c', e) ↦
              rw (transmit, b, e) (arrives x site i _ h2 n o (outside-Ready o m c c' _ e a) t)
          | inl (panicked, c', e) ↦
              rw (transmit, b, e) (arrives x site i _ h2 n o (outside-Ready o m c c' _ e a) t)
          | inl (out_of_fuel, c', e) ↦
              rw (transmit, b, e) (arrives x site i _ h2 n o (outside-Ready o m c c' _ e a) t)
          | inr (response, c', e) ↦
              rw (transmit, b, e) (arrives x site i _ h2 n o (outside-Ready o m c c' _ e a) t)
        ]

    given_back :
        {A : Type 0} (t : Task) (o : Origin) (m : Effect x.World Foreign A) (c d : Client x)
        (r : Result (Failure Foreign) A)
        → outside x m c ≡ (r, d)
        → o.slot_3.lock ≡ none
        → Alike x site i o c
        → Ready x site i (goes i t (with_slot h2 (release o.slot_2) o)) d
    given_back t o m c d r e own a = record {
      alike = outside-Shows x site _ _ m c d r e a;
      idle_3 = own;
      idle_2 = refl;
    }

    -- The request is made and sent again.
    again : PooledConnection x → Act x (Response x)
    again conn = build >>= (λ request. outside x (send x conn request body))

    -- With the lock of HTTP/2, which is given back with the answer.
    again-Serves :
        (conn : PooledConnection x) (n : ℕ) (o : Origin) (c : Client x)
        → o.tasks i ≡ resending n
        → o.slot_3.lock ≡ none
        → Alike x site i o c
        → Serves x site i o (again conn c)
    unfolding again step resent cancel
    again-Serves conn n o c t own a =
        let (request, b) = builds c in
        let m = send x conn request body in
        elim (Call-cases (outside x m c)) [
          | inl (error f, c', e) ↦
              rw (b, e)
                (by_step x site i _ (resending n) false o t (
                  gives_up x site i _ c' _ (given_back _ o m c c' _ e own a)
                    (set_task-same i failed o.tasks)))
          | inl (panicked, c', e) ↦
              rw (b, e)
                (by_drop x site i _ (resending n) o refl t (
                  gives_up x site i _ c' _ (given_back _ o m c c' _ e own a)
                    (set_task-same i failed o.tasks)))
          | inl (out_of_fuel, c', e) ↦
              rw (b, e)
                (by_drop x site i _ (resending n) o refl t (
                  gives_up x site i _ c' _ (given_back _ o m c c' _ e own a)
                    (set_task-same i failed o.tasks)))
          | inr (response, c', e) ↦
              rw (b, e)
                (by_step x site i _ (resending n) true o t (
                  arrives x site i _ h2 n _ (given_back _ o m c c' _ e own a)
                    (set_task-same i (done h2 n) o.tasks)))
        ]

    retry-Serves :
        (o : Origin) (c : Client x)
        → Ready x site i o c
        → o.tasks i ≡ retrying
        → Serves x site i o (retry_over_http2 x host port build body c)
    unfolding retry_over_http2 evict again
    retry-Serves o c a t =
        reacquire-Serves x site i again again-Serves o (evict x (origin_key host port) c).1 t
          a.idle_3 a.idle_2 (evict-Shows x site _ _ (origin_key host port) c a.alike)

    over_3-Serves :
        (session : QuicSession x) (n : ℕ) (o : Origin) (c : Client x)
        → Ready x site i o c
        → o.tasks i ≡ sending n
        → Serves x site i o (transmit x host port build body (http3 session) c)
    unfolding transmit step cancel
    over_3-Serves session n o c a t =
        let (request, b) = builds c in
        let m = send x (http3 session) request body in
        elim (Call-cases (outside x m c)) [
          | inl (error f, c', e) ↦
              rw (transmit, b, e)
                (by_step x site i _ (sending n) false o t (
                  retry-Serves (goes i retrying o) c'
                    (still o c' retrying (outside-Ready o m c c' _ e a))
                    (set_task-same i retrying o.tasks)))
          | inl (panicked, c', e) ↦
              rw (transmit, b, e)
                (by_drop x site i _ (sending n) o refl t (
                  gives_up x site i _ c' (goes i failed o)
                    (still o c' failed (outside-Ready o m c c' _ e a))
                    (set_task-same i failed o.tasks)))
          | inl (out_of_fuel, c', e) ↦
              rw (transmit, b, e)
                (by_drop x site i _ (sending n) o refl t (
                  gives_up x site i _ c' (goes i failed o)
                    (still o c' failed (outside-Ready o m c c' _ e a))
                    (set_task-same i failed o.tasks)))
          | inr (response, c', e) ↦
              rw (transmit, b, e)
                (by_step x site i _ (sending n) true o t (
                  arrives x site i _ h3 n (goes i (done h3 n) o)
                    (still o c' (done h3 n) (outside-Ready o m c c' _ e a))
                    (set_task-same i (done h3 n) o.tasks)))
        ]

    transmit-Serves :
        (conn : PooledConnection x) (c : Client x) (o : Origin)
        → Ready x site i o c
        → Outcome x (ok conn) (o.tasks i)
        → Serves x site i o (transmit x host port build body conn c)
    transmit-Serves (http2 conn) c o a (n, e) = over_2-Serves conn n o c a e
    transmit-Serves (http3 session) c o a (n, e) = over_3-Serves session n o c a e

    -- Where the port is a u16, both locks of the origin are free, the client's pool is not poisoned,
    -- each of its slots holds a connection of the protocol that its key names, or none, the origin's
    -- slots are filled as the client's, and the request can be made: a hop of the client, which takes a
    -- connection and sends the request over it, with both fallbacks, is a run of a task that is about
    -- to look at its slot. By turns of this task alone, in which it is dropped only if the hop panics or
    -- runs out of fuel, it comes to an end, and to `done` if there is a response; both locks are free
    -- then, and the slots are filled as the client's are afterwards.
    pub acquire-transmit-Serves :
        (p : Protocol) (o : Origin) (c : Client x)
        → o.tasks i ≡ peeking p
        → o.slot_3.lock ≡ none
        → o.slot_2.lock ≡ none
        → Alike x site i o c
        → Serves x site i o
            ((acquire x host port (advertised p) >>= transmit x host port build body) c)
    acquire-transmit-Serves p o c t own free a =
        then-Serves x site i (acquire x host port (advertised p) c) o _
          (acquire-IsRun x site i p o c t own free a) transmit-Serves
