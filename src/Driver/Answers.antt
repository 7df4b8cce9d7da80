-- ===== src/Driver/Answers.antt =====
-- src/client/quic.rs: every stream whose end the HTTP/3 connection reports is answered.
use quik.Base.{
  ℕ, ◌<◌, ◌==◌, Bool, true, false, not, ◌||◌, [], ◌∷◌, some, is_some, if◌then◌else◌, ◌≡◌, refl, ◌∙◌,
  inl, inr, Bool-cases,
}
use quik.Effect.{Ended}
use quik.Externals.{Externals}
use quik.Quiche.{
  QuicheLib, QuicheLaws, headers_event, data_event, finished_event, other_event, reset_event,
}
use quik.Streams.{lookup}
use quik.Driver.{PendingRequest, Requests, Driver}
use quik.Driver.Loop.{poll_loop}
use quik.Driver.Measures.{untold, left}
use quik.Driver.Ending.{poll_loop_ends}
use quik.Driver.History.{
  Report, event, bytes_read, History, Fate, own_report, after_report, fate, IsFate,
}
use quik.Driver.Assembly.{IsHeard, poll_loop-fate}

abbrev pub is_end : Report → Bool
is_end (event (headers_event list)) = false
is_end (event data_event) = false
is_end (event finished_event) = true
is_end (event other_event) = false
is_end (event (reset_event code)) = true
is_end (bytes_read bytes) = false

-- Was the stream reported to be finished or reset?
unfoldable pub ends : ℕ → History → Bool
ends id [] = false
ends id ((j, report) ∷ history) =
    if j == id then is_end report || ends id history else ends id history

or_false : (b : Bool) → not b ≡ not (b || false)
or_false true = refl
or_false false = refl

or_true : (b : Bool) → false ≡ not (b || true)
or_true true = refl
or_true false = refl

module _ (x : Externals) where
  is_pending : Fate x → Bool
  is_pending (inl req) = true
  is_pending (inr a) = false

  own_report-is_end :
      (report : Report) (req : PendingRequest x)
      → is_pending (own_report x report req) ≡ not (is_end report)
  unfolding own_report is_pending
  own_report-is_end (event (headers_event list)) req = refl
  own_report-is_end (event data_event) req = refl
  own_report-is_end (event finished_event) req = refl
  own_report-is_end (event other_event) req = refl
  own_report-is_end (event (reset_event code)) req = refl
  own_report-is_end (bytes_read bytes) req = refl

  after_report-ends :
      (report : Report) (f : Fate x) (e : Bool)
      → is_pending f ≡ not e
      → is_pending (after_report x report f) ≡ not (is_end report || e)
  unfolding after_report is_pending
  after_report-ends report (inl req) true h = absurd (cc)
  after_report-ends report (inl req) false h =
      own_report-is_end report req ∙ or_false (is_end report)
  after_report-ends report (inr a) true h = or_true (is_end report)
  after_report-ends report (inr a) false h = absurd (cc)

  fate-ends :
      (id : ℕ) (history : History) (req : PendingRequest x)
      → is_pending (fate x id history req) ≡ not (ends id history)
  unfolding fate ends is_pending
  fate-ends id [] req = refl
  fate-ends id ((j, report) ∷ history) req = elim (Bool-cases (j == id)) [
    | inl s ↦ rw s (after_report-ends report _ _ (fate-ends id history req))
    | inr n ↦ rw n (fate-ends id history req)
  ]

  IsFate-lookup :
      (id tx : ℕ) (f : Fate x) (r : Requests x)
      → IsFate x id tx f r
      → is_some (lookup id r.pending) ≡ is_pending f
  unfolding IsFate is_pending
  IsFate-lookup id tx (inl req) r h = rw (h.0) refl
  IsFate-lookup id tx (inr a) r h = rw (h.0) refl

  module _ (q : QuicheLib x) (l : QuicheLaws x q) where
    -- Where a connection has finitely many events to report and bytes to read, its HTTP/3 connection is
    -- up, and the fuel is above what it has: the loop over the events ends by itself, and a stream that
    -- was pending is pending after it exactly if the connection reported neither that it is finished
    -- nor that it was reset.
    pub poll_loop-ends :
        (fuel body_fuel : ℕ) (d : Driver x q) (h : q.H3) (id : ℕ) (req : PendingRequest x)
        → untold x q l d < fuel
        → left x q l d < body_fuel
        → d.h3_conn ≡ some h
        → lookup id d.requests.pending ≡ some req
        → Ended (poll_loop x q fuel body_fuel d)
          × (history : History) × IsHeard x q h d (poll_loop x q fuel body_fuel d).1 history
          × (is_some (lookup id (poll_loop x q fuel body_fuel d).1.requests.pending)
              ≡ not (ends id history))
    poll_loop-ends fuel body_fuel d h id req b c e k =
        let (history, heard, f) = poll_loop-fate x q fuel body_fuel d h id req e k in
        (
          poll_loop_ends x q l fuel body_fuel d b c,
          history,
          heard,
          IsFate-lookup id req.response_tx _ _ f ∙ fate-ends id history req,
        )
