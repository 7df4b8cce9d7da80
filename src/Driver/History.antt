-- ===== src/Driver/History.antt =====
-- src/client/quic.rs: what the HTTP/3 connection told the driver, in order, and what becomes of one
-- stream among the others.
use quik.Base.{
  ◌∙◌, subst, Bool-cases, ℕ, ◌==◌, true, false, List, [], ◌∷◌, none, some, ◌⊎◌, inl, inr, arith,
  ◌≡◌, refl, if◌then◌else◌, ◌++◌, ap, Option-cases,
}
use quik.Effect.{ok, err}
use quik.Externals.{Externals}
use quik.Quiche.{Event, headers_event, data_event, finished_event, other_event, reset_event}
use quik.Streams.{lookup, lookup-update, lookup-remove}
use quik.Driver.Tally.{take_headers_tx}
use quik.Driver.{
  PendingRequest, Requests, Answer, answer, take_headers, take_bytes, response_of, finish, reset,
  reset_error, advance,
}

-- An event, or what was read of a body.
pub data Report : Type 0 where
  event : Event → Report
  bytes_read : List ℕ → Report

-- The latest stands first.
abbrev pub History : Type 0
History = List (ℕ × Report)

module _ (x : Externals) where
  unfoldable pub take_report : ℕ → Report → Requests x → Requests x
  take_report id (event (headers_event list)) = advance x id (take_headers x list)
  take_report id (event data_event) = λ r. r
  take_report id (event finished_event) = finish x id
  take_report id (event other_event) = λ r. r
  take_report id (event (reset_event code)) = reset x id code
  take_report id (bytes_read bytes) = advance x id (take_bytes x bytes)

  unfoldable pub replay : History → Requests x → Requests x
  unfolding take_report
  replay [] r = r
  replay ((id, report) ∷ history) r = take_report id report (replay history r)

  -- One stream by itself: its request still waits, or this was answered.
  abbrev pub Fate : Type 0
  Fate = PendingRequest x ⊎ Answer x

  unfoldable pub own_report : Report → PendingRequest x → Fate
  own_report (event (headers_event list)) req = inl (take_headers x list req)
  own_report (event data_event) req = inl req
  own_report (event finished_event) req = inr (ok (response_of x req))
  own_report (event other_event) req = inl req
  own_report (event (reset_event code)) req = inr (err (reset_error x code))
  own_report (bytes_read bytes) req = inl (take_bytes x bytes req)

  unfoldable pub after_report : Report → Fate → Fate
  unfolding own_report
  after_report report (inl req) = own_report report req
  after_report report (inr a) = inr a

  unfoldable pub fate : ℕ → History → PendingRequest x → Fate
  unfolding after_report
  fate id [] req = inl req
  fate id ((j, report) ∷ history) req =
      if j == id then after_report report (fate id history req) else fate id history req

  abbrev pub IsAnswered : ℕ → Answer x → List (ℕ × Answer x) → Type 0
  IsAnswered tx a answered =
      (later : List (ℕ × Answer x)) × (sooner : List (ℕ × Answer x)) × (answered
        ≡ later ++ (tx, a) ∷ sooner)

  -- The driver's books on a stream show its fate.
  unfoldable pub IsFate : ℕ → ℕ → Fate → Requests x → Type 0
  IsFate id tx (inl req) r = (lookup id r.pending ≡ some req) × (req.response_tx ≡ tx)
  IsFate id tx (inr a) r = (lookup id r.pending ≡ none) × IsAnswered tx a r.answered

  IsAnswered-later :
      (tx at : ℕ) (a b : Answer x) (answered : List (ℕ × Answer x))
      → IsAnswered tx a answered
      → IsAnswered tx a ((at, b) ∷ answered)
  IsAnswered-later tx at a b answered (later, sooner, e) =
      ((at, b) ∷ later, sooner, ap (◌∷◌ (at, b)) e)

  finish-IsAnswered :
      (id tx : ℕ) (a : Answer x) (r : Requests x)
      → IsAnswered tx a r.answered
      → IsAnswered tx a (finish x id r).answered
  unfolding finish answer
  finish-IsAnswered id tx a r h = elim (Option-cases (lookup id r.pending)) [
    | inl e ↦ rw (finish, e) h
    | inr (req, e) ↦ rw (finish, e) (IsAnswered-later tx req.response_tx a _ r.answered h)
  ]

  reset-IsAnswered :
      (id code tx : ℕ) (a : Answer x) (r : Requests x)
      → IsAnswered tx a r.answered
      → IsAnswered tx a (reset x id code r).answered
  unfolding reset answer
  reset-IsAnswered id code tx a r h = elim (Option-cases (lookup id r.pending)) [
    | inl e ↦ rw (reset, e) h
    | inr (req, e) ↦ rw (reset, e) (IsAnswered-later tx req.response_tx a _ r.answered h)
  ]

  -- An answer that was given stays given.
  take_report-IsAnswered :
      (id tx : ℕ) (a : Answer x) (report : Report) (r : Requests x)
      → IsAnswered tx a r.answered
      → IsAnswered tx a (take_report id report r).answered
  unfolding take_report
  take_report-IsAnswered id tx a (event (headers_event list)) r h = h
  take_report-IsAnswered id tx a (event data_event) r h = h
  take_report-IsAnswered id tx a (event finished_event) r h = finish-IsAnswered id tx a r h
  take_report-IsAnswered id tx a (event other_event) r h = h
  take_report-IsAnswered id tx a (event (reset_event code)) r h = reset-IsAnswered id code tx a r h
  take_report-IsAnswered id tx a (bytes_read bytes) r h = h

  lookup-finish :
      (id j : ℕ) (r : Requests x)
      → lookup id (finish x j r).pending ≡ (if j == id then none else lookup id r.pending)
  unfolding finish answer
  lookup-finish id j r = elim (Option-cases (lookup j r.pending)) [
    | inl e ↦ rw (finish, e) (grind (arith, e))
    | inr (req, e) ↦ rw (finish, e) (lookup-remove j id r.pending)
  ]

  lookup-reset :
      (id j code : ℕ) (r : Requests x)
      → lookup id (reset x j code r).pending ≡ (if j == id then none else lookup id r.pending)
  unfolding reset answer
  lookup-reset id j code r = elim (Option-cases (lookup j r.pending)) [
    | inl e ↦ rw (reset, e) (grind (arith, e))
    | inr (req, e) ↦ rw (reset, e) (lookup-remove j id r.pending)
  ]

  lookup-take_report_other :
      (id j : ℕ) (report : Report) (r : Requests x)
      → (j == id) ≡ false
      → lookup id (take_report j report r).pending ≡ lookup id r.pending
  unfolding take_report
  lookup-take_report_other id j (event (headers_event list)) r n =
      lookup-update j id _ r.pending ∙ rw n refl
  lookup-take_report_other id j (event data_event) r n = refl
  lookup-take_report_other id j (event finished_event) r n = lookup-finish id j r ∙ rw n refl
  lookup-take_report_other id j (event other_event) r n = refl
  lookup-take_report_other id j (event (reset_event code)) r n =
      lookup-reset id j code r ∙ rw n refl
  lookup-take_report_other id j (bytes_read bytes) r n = lookup-update j id _ r.pending ∙ rw n refl

  same : (id : ℕ) → (id == id) ≡ true
  same id = ground arith

  lookup-take_report_gone :
      (id : ℕ) (report : Report) (r : Requests x)
      → lookup id r.pending ≡ none
      → lookup id (take_report id report r).pending ≡ none
  unfolding take_report
  lookup-take_report_gone id (event (headers_event list)) r n =
      lookup-update id id _ r.pending ∙ rw (same id, n) refl
  lookup-take_report_gone id (event data_event) r n = n
  lookup-take_report_gone id (event finished_event) r n = lookup-finish id id r ∙ rw (same id) refl
  lookup-take_report_gone id (event other_event) r n = n
  lookup-take_report_gone id (event (reset_event code)) r n =
      lookup-reset id id code r ∙ rw (same id) refl
  lookup-take_report_gone id (bytes_read bytes) r n =
      lookup-update id id _ r.pending ∙ rw (same id, n) refl

  other-IsFate :
      (id j tx : ℕ) (report : Report) (f : Fate) (r : Requests x)
      → (j == id) ≡ false
      → IsFate id tx f r
      → IsFate id tx f (take_report j report r)
  unfolding IsFate
  other-IsFate id j tx report (inl req) r n (e, t) =
      (lookup-take_report_other id j report r n ∙ e, t)
  other-IsFate id j tx report (inr a) r n (e, h) =
      (lookup-take_report_other id j report r n ∙ e, take_report-IsAnswered j tx a report r h)

  changed :
      (id : ℕ) (f : PendingRequest x → PendingRequest x) (req : PendingRequest x) (r : Requests x)
      → lookup id r.pending ≡ some req
      → lookup id (advance x id f r).pending ≡ some (f req)
  changed id f req r e = lookup-update id id f r.pending ∙ rw (same id, e) refl

  own_report-IsFate :
      (id tx : ℕ) (report : Report) (req : PendingRequest x) (r : Requests x)
      → lookup id r.pending ≡ some req
      → req.response_tx ≡ tx
      → IsFate id tx (own_report report req) (take_report id report r)
  unfolding own_report take_report IsFate finish reset answer
  own_report-IsFate id tx (event (headers_event list)) req r e t =
      (changed id (take_headers x list) req r e, take_headers_tx x list req ∙ t)
  own_report-IsFate id tx (event data_event) req r e t = (e, t)
  own_report-IsFate id tx (event finished_event) req r e t =
      (lookup-finish id id r ∙ rw (same id) refl, rw (finish, e, t) ([], r.answered, refl))
  own_report-IsFate id tx (event other_event) req r e t = (e, t)
  own_report-IsFate id tx (event (reset_event code)) req r e t =
      (lookup-reset id id code r ∙ rw (same id) refl, rw (reset, e, t) ([], r.answered, refl))
  own_report-IsFate id tx (bytes_read bytes) req r e t =
      (changed id (take_bytes x bytes) req r e, t)

  after_report-IsFate :
      (id tx : ℕ) (report : Report) (f : Fate) (r : Requests x)
      → IsFate id tx f r
      → IsFate id tx (after_report report f) (take_report id report r)
  unfolding after_report IsFate
  after_report-IsFate id tx report (inl req) r (e, t) = own_report-IsFate id tx report req r e t
  after_report-IsFate id tx report (inr a) r (e, h) =
      (lookup-take_report_gone id report r e, take_report-IsAnswered id tx a report r h)

  -- What becomes of a stream is its fate among its own reports, whatever stands between them.
  pub replay-IsFate :
      (id : ℕ) (history : History) (req : PendingRequest x) (r : Requests x)
      → lookup id r.pending ≡ some req
      → IsFate id req.response_tx (fate id history req) (replay history r)
  unfolding fate replay IsFate
  replay-IsFate id [] req r e = (e, refl)
  replay-IsFate id ((j, report) ∷ history) req r e = elim (Bool-cases (j == id)) [
    | inl s ↦
        let own : id ≡ j = ground arith in
        rw s (
          subst
            (λ k.
              IsFate id req.response_tx (after_report report (fate id history req))
                (take_report k report (replay history r)))
            own
            (after_report-IsFate id req.response_tx report _ _ (replay-IsFate id history req r e)))
    | inr n ↦
        rw n (other-IsFate id j req.response_tx report _ _ n (replay-IsFate id history req r e))
  ]
