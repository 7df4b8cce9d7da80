-- ===== src/Driver/Assembly.antt =====
-- src/client/quic.rs, the loop over the events: what it makes of the requests is the replay of what
-- the HTTP/3 connection reported.
use quik.Base.{
  ℕ, zero, suc, ◌==◌, Bool, true, false, List, [], ◌∷◌, Option, none, some, is_some, if◌then◌else◌,
  length, ◌≡◌, refl, sym, subst, ap,
}
use quik.Effect.{Effect, continue, case_option}
use quik.Effect.Kept.{Kept, Kept-continue}
use quik.Externals.{Externals}
use quik.Quiche.{
  QuicheLib, Event, headers_event, data_event, finished_event, other_event, reset_event,
}
use quik.Streams.{lookup}
use quik.Driver.{PendingRequest, Requests, Driver, Act, take_bytes, advance}
use quik.Driver.Loop.{on_h3, read_body, on_event, poll_loop}
use quik.Driver.History.{
  event, bytes_read, History, take_report, replay, fate, IsFate, replay-IsFate,
}

module _ {S X A B : Type 0} (P : S → Type 0) where
  Kept-each :
      (o : Option B) (m : Effect S X A) (f : B → Effect S X A) (s : S)
      → (o ≡ none → Kept P (m s))
      → ((b : B) → o ≡ some b → Kept P (f b s))
      → Kept P (case_option o m f s)
  Kept-each none m f s p k = p refl
  Kept-each (some b) m f s p k = k b refl

module _ {S X A : Type 0} (P : S → Type 0) where
  Kept-test :
      (b : Bool) (m k : Effect S X A) (s : S)
      → (b ≡ true → Kept P (m s))
      → (b ≡ false → Kept P (k s))
      → Kept P ((if b then m else k) s)
  Kept-test true m k s p n = p refl
  Kept-test false m k s p n = n refl

module _ (x : Externals) (q : QuicheLib x) where
  open x use {World, Foreign, Quic, Udp, Address}
  open q use {H3, H3Config}

  -- From a connection, its calls by which it was polled and read, and what they reported.
  pub data Heard (h₀ : H3) (c₀ : Quic) : History → H3 → Quic → Type 0 where
    silent : Heard h₀ c₀ [] h₀ c₀
    nothing :
        (l : History) (h : H3) (c : Quic)
        → (q.poll h c).0 ≡ none
        → Heard h₀ c₀ l h c
        → Heard h₀ c₀ l (q.poll h c).1.0 (q.poll h c).1.1
    polled :
        (l : History) (h : H3) (c : Quic) (id : ℕ) (e : Event)
        → (q.poll h c).0 ≡ some (id, e)
        → Heard h₀ c₀ l h c
        → Heard h₀ c₀ ((id, event e) ∷ l) (q.poll h c).1.0 (q.poll h c).1.1
    unread :
        (l : History) (h : H3) (c : Quic) (id : ℕ)
        → (q.recv_body h c id 8192).0 ≡ none
        → Heard h₀ c₀ l h c
        → Heard h₀ c₀ l (q.recv_body h c id 8192).1.0 (q.recv_body h c id 8192).1.1
    exhausted :
        (l : History) (h : H3) (c : Quic) (id : ℕ) (bytes : List ℕ)
        → (q.recv_body h c id 8192).0 ≡ some bytes
        → (length bytes == 0) ≡ true
        → Heard h₀ c₀ l h c
        → Heard h₀ c₀ l (q.recv_body h c id 8192).1.0 (q.recv_body h c id 8192).1.1
    read :
        (l : History) (h : H3) (c : Quic) (id : ℕ) (bytes : List ℕ)
        → (q.recv_body h c id 8192).0 ≡ some bytes
        → (length bytes == 0) ≡ false
        → Heard h₀ c₀ l h c
        → Heard h₀ c₀
            ((id, bytes_read bytes) ∷ l)
            (q.recv_body h c id 8192).1.0
            (q.recv_body h c id 8192).1.1

  module _ (h₀ : H3) (c₀ : Quic) (r₀ : Requests x) where
    -- The driver heard this and has replayed it.
    pub record Replayed (d : Driver x q) : Type 0 where
      pub history : History
      pub h3 : H3
      pub is_up : d.h3_conn ≡ some h3
      pub heard : Heard h₀ c₀ history h3 d.conn
      pub replayed : d.requests ≡ replay x history r₀

    on_h3_then :
        {A B : Type 0} (absent : A) (f : H3 → Quic → A × (H3 × Quic)) (d : Driver x q)
        (k : A → Act x q B) (h : H3)
        → d.h3_conn ≡ some h
        → Kept Replayed (
            k
              (f h d.conn).0
              (record d { h3_conn = some (f h d.conn).1.0; conn = (f h d.conn).1.1 }))
        → Kept Replayed (continue (on_h3 x q absent f d) k)
    on_h3_then absent f d k h e p = simp (on_h3, e) p

    read_body-Replayed :
        (fuel id : ℕ) (d : Driver x q) → Replayed d → Kept Replayed (read_body x q fuel id d)
    unfolding read_body replay take_report
    read_body-Replayed zero id d p = record { kept = p }
    read_body-Replayed (suc fuel) id d p =
        let c = d.conn in
        let h = p.h3 in
        on_h3_then none (λ h c. q.recv_body h c id 8192) d _ h p.is_up
          (Kept-each Replayed (q.recv_body h c id 8192).0 _ _ _
            (λ n. record {
              kept = record {
                history = p.history;
                h3 = (q.recv_body h c id 8192).1.0;
                is_up = refl;
                heard = unread p.history h c id n p.heard;
                replayed = p.replayed;
              };
            })
            (λ bytes e.
              Kept-test Replayed (length bytes == 0) _ _ _
                (λ t. record {
                  kept = record {
                    history = p.history;
                    h3 = (q.recv_body h c id 8192).1.0;
                    is_up = refl;
                    heard = exhausted p.history h c id bytes e t p.heard;
                    replayed = p.replayed;
                  };
                })
                (λ t. read_body-Replayed fuel id _ (record {
                  history = (id, bytes_read bytes) ∷ p.history;
                  h3 = (q.recv_body h c id 8192).1.0;
                  is_up = refl;
                  heard = read p.history h c id bytes e t p.heard;
                  replayed = ap (advance x id (take_bytes x bytes)) p.replayed;
                }))))

    -- The driver has heard an event that it has not replayed yet.
    record Hears (id : ℕ) (e : Event) (d : Driver x q) : Type 0 where
      pub history : History
      pub h3 : H3
      pub is_up : d.h3_conn ≡ some h3
      pub heard : Heard h₀ c₀ ((id, event e) ∷ history) h3 d.conn
      pub replayed : d.requests ≡ replay x history r₀

    taken :
        (id : ℕ) (e : Event) (d : Driver x q)
        → Hears id e d
        → Replayed (record d { requests = take_report x id (event e) d.requests })
    unfolding replay
    taken id e d p = record {
      history = (id, event e) ∷ p.history;
      h3 = p.h3;
      is_up = p.is_up;
      heard = p.heard;
      replayed = ap (take_report x id (event e)) p.replayed;
    }

    on_event-Replayed :
        (fuel id : ℕ) (e : Event) (d : Driver x q)
        → Hears id e d
        → Kept Replayed (on_event x q fuel id e d)
    unfolding on_event take_report
    on_event-Replayed fuel id (headers_event list) d p = record {
      kept = taken id (headers_event list) d p;
    }
    on_event-Replayed fuel id data_event d p =
        Kept-test Replayed (is_some (lookup id d.requests.pending)) _ _ d
          (λ t. read_body-Replayed fuel id d (taken id data_event d p))
          (λ t. record { kept = taken id data_event d p })
    on_event-Replayed fuel id finished_event d p = record { kept = taken id finished_event d p }
    on_event-Replayed fuel id (reset_event code) d p = record {
      kept = taken id (reset_event code) d p;
    }
    on_event-Replayed fuel id other_event d p = record { kept = taken id other_event d p }

    poll_loop-Replayed :
        (fuel body_fuel : ℕ) (d : Driver x q)
        → Replayed d
        → Kept Replayed (poll_loop x q fuel body_fuel d)
    unfolding poll_loop
    poll_loop-Replayed zero body_fuel d p = record { kept = p }
    poll_loop-Replayed (suc fuel) body_fuel d p = on_h3_then none q.poll d _ p.h3 p.is_up (
        Kept-each Replayed (q.poll p.h3 d.conn).0 _ _ _
          (λ n. record {
            kept = record {
              history = p.history;
              h3 = (q.poll p.h3 d.conn).1.0;
              is_up = refl;
              heard = nothing p.history p.h3 d.conn n p.heard;
              replayed = p.replayed;
            };
          })
          (λ next e.
            Kept-continue Replayed _ _
              (on_event-Replayed body_fuel next.0 next.1 _ (record {
                history = p.history;
                h3 = (q.poll p.h3 d.conn).1.0;
                is_up = refl;
                heard = polled p.history p.h3 d.conn next.0 next.1 e p.heard;
                replayed = p.replayed;
              }))
              (λ u s p'. poll_loop-Replayed fuel body_fuel s p')))

  -- What a run of the loop over the events heard, from a driver's state to another.
  unfoldable pub IsHeard : H3 → Driver x q → Driver x q → History → Type 0
  IsHeard h d d' history = (h' : H3) × (d'.h3_conn ≡ some h') × Heard h d.conn history h' d'.conn

  -- What the loop leaves of a stream that was pending is its fate among what was heard.
  pub poll_loop-fate :
      (fuel body_fuel : ℕ) (d : Driver x q) (h : H3) (id : ℕ) (req : PendingRequest x)
      → d.h3_conn ≡ some h
      → lookup id d.requests.pending ≡ some req
      → (history : History) × IsHeard h d (poll_loop x q fuel body_fuel d).1 history
        × IsFate x id req.response_tx
            (fate x id history req)
            (poll_loop x q fuel body_fuel d).1.requests
  unfolding replay IsHeard
  poll_loop-fate fuel body_fuel d h id req e k =
      let p =
        (poll_loop-Replayed h d.conn d.requests fuel body_fuel d
          (record { history = []; h3 = h; is_up = e; heard = silent; replayed = refl })).kept in
      (
        p.history,
        (p.h3, p.is_up, p.heard),
        subst (IsFate x id req.response_tx (fate x id p.history req)) (sym p.replayed)
            (replay-IsFate x id p.history req d.requests k),
      )
