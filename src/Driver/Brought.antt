-- ===== src/Driver/Brought.antt =====
-- src/client/quic.rs, the loop over the events: what it makes of a stream is what the reports of the
-- stream bring together.
use quik.Base.{
  ℕ, ◌==◌, List, [], ◌∷◌, ◌++◌, Option, some, inl, inr, ◌≡◌, refl, sym, ◌∙◌, ap, subst, Bool-cases,
  Option-cases, append-nil, append_assoc,
}
use quik.Externals.{Externals}
use quik.Quiche.{QuicheLib, headers_event, data_event, finished_event, other_event, reset_event}
use quik.Streams.{lookup}
use quik.Driver.{PendingRequest, Driver, take_header, take_headers, take_bytes, response_of}
use quik.Driver.Status.{names_status, number_of, same_bytes-names_status, parse_u16-number_of}
use quik.Driver.Outcome.{
  own, lines, content, end_of, status_after, fields_after, brought, closing, outcome,
}
use quik.Driver.Loop.{poll_loop}
use quik.Driver.History.{
  Report, event, bytes_read, History, Fate, own_report, after_report, fate, IsFate,
}
use quik.Driver.Assembly.{IsHeard, poll_loop-fate}

module _ (x : Externals) where
  open x use {http}
  open http use {HeaderMap}

  status_after-append :
      (a b : List (List ℕ × List ℕ)) (old : Option ℕ)
      → status_after x (a ++ b) old ≡ status_after x b (status_after x a old)
  unfolding status_after
  status_after-append [] b old = refl
  status_after-append ((name, value) ∷ a) b old = status_after-append a b _

  fields_after-append :
      (a b : List (List ℕ × List ℕ)) (old : HeaderMap)
      → fields_after x (a ++ b) old ≡ fields_after x b (fields_after x a old)
  unfolding fields_after
  fields_after-append [] b old = refl
  fields_after-append ((name, value) ∷ a) b old = fields_after-append a b _

  with_lines : List (List ℕ × List ℕ) → PendingRequest x → PendingRequest x
  with_lines list req = record req {
    status = status_after x list req.status;
    headers = fields_after x list req.headers;
  }

  -- A header line changes the status or the headers alone.
  take_header-after :
      (line : List ℕ × List ℕ) (req : PendingRequest x)
      → take_header x line req ≡ record req {
        status = status_after x (line ∷ []) req.status;
        headers = fields_after x (line ∷ []) req.headers;
      }
  unfolding take_header status_after fields_after
  take_header-after (name, value) req = elim (Bool-cases (names_status name)) [
    | inl is_status ↦
        let named = same_bytes-names_status name ∙ is_status in
        elim (Option-cases (number_of value)) [
          | inl e ↦ rw (named, is_status, parse_u16-number_of value, e) refl
          | inr (code, e) ↦ elim (Option-cases (http.from_u16 code)) [
            | inl f ↦ rw (named, is_status, parse_u16-number_of value, e, f) refl
            | inr (status, f) ↦ rw (named, is_status, parse_u16-number_of value, e, f) refl
          ]
        ]
    | inr is_field ↦
        let named = same_bytes-names_status name ∙ is_field in
        elim (Option-cases (http.name_from_bytes name)) [
          | inl e ↦ rw (named, is_field, e) refl
          | inr (n, e) ↦ elim (Option-cases (http.value_from_bytes value)) [
            | inl f ↦ rw (named, is_field, e, f) refl
            | inr (v, f) ↦ rw (named, is_field, e, f) refl
          ]
        ]
  ]

  take_headers-after :
      (list : List (List ℕ × List ℕ)) (req : PendingRequest x)
      → take_headers x list req ≡ record req {
        status = status_after x list req.status;
        headers = fields_after x list req.headers;
      }
  unfolding take_headers status_after fields_after with_lines
  take_headers-after [] req = refl
  take_headers-after (line ∷ list) req =
      take_headers-after list (take_header x line req)
      ∙ ap (with_lines list) (take_header-after line req)

  -- One report after the other, until the stream has ended.
  run : List Report → PendingRequest x → Fate x
  run [] req = inl req
  run (report ∷ reports) req = elim (own_report x report req) [
    | inl req' ↦ run reports req'
    | inr a ↦ inr a
  ]

  -- To go on from a fate.
  run_on : List Report → Fate x → Fate x
  unfolding run
  run_on reports (inl req) = run reports req
  run_on reports (inr a) = inr a

  run-cons :
      (report : Report) (reports : List Report) (req : PendingRequest x)
      → run (report ∷ reports) req ≡ run_on reports (own_report x report req)
  unfolding run run_on
  run-cons report reports req =
      elim (own_report x report req)
        as (λ f.
          elim f as (λ _. Fate x) [ inl r ↦ run reports r | inr a ↦ inr a ] ≡ run_on reports f) [
            | inl r ↦ refl
            | inr a ↦ refl
          ]

  run_on-append :
      (reports : List Report) (report : Report) (f : Fate x)
      → run_on (reports ++ (report ∷ [])) f ≡ after_report x report (run_on reports f)
  unfolding run run_on after_report
  run_on-append reports report (inr a) = refl
  run_on-append [] report (inl req) = run-cons report [] req ∙ run_on-nil (own_report x report req)
    where
      run_on-nil : (f : Fate x) → run_on [] f ≡ f
      run_on-nil (inl r) = refl
      run_on-nil (inr a) = refl
  run_on-append (first ∷ reports) report (inl req) =
      run-cons first (reports ++ (report ∷ [])) req
      ∙ run_on-append reports report (own_report x first req)
      ∙ ap (after_report x report) (sym (run-cons first reports req))

  fate-run :
      (id : ℕ) (history : History) (req : PendingRequest x)
      → fate x id history req ≡ run (own id history) req
  unfolding fate own run run_on
  fate-run id [] req = refl
  fate-run id ((j, report) ∷ history) req = elim (Bool-cases (j == id)) [
    | inl s ↦ rw s (
        ap (after_report x report) (fate-run id history req)
        ∙ sym (run_on-append (own id history) report (inl req)))
    | inr n ↦ rw n (fate-run id history req)
  ]

  outcome-headers :
      (list : List (List ℕ × List ℕ)) (reports : List Report) (req : PendingRequest x)
      → outcome x reports (take_headers x list req)
        ≡ outcome x (event (headers_event list) ∷ reports) req
  unfolding outcome brought lines content end_of
  outcome-headers list reports req =
      rw
        (
          take_headers-after list req,
          status_after-append list (lines reports) req.status,
          fields_after-append list (lines reports) req.headers,
        )
        refl

  run-outcome :
      (reports : List Report) (req : PendingRequest x) → run reports req ≡ outcome x reports req
  unfolding run own_report outcome brought closing lines content end_of status_after fields_after
      response_of
  run-outcome [] req = rw (append-nil req.body) refl
  run-outcome (event (headers_event list) ∷ reports) req =
      run-outcome reports (take_headers x list req) ∙ outcome-headers list reports req
  run-outcome (event data_event ∷ reports) req = run-outcome reports req
  run-outcome (event other_event ∷ reports) req = run-outcome reports req
  run-outcome (event finished_event ∷ reports) req = rw (append-nil req.body) refl
  run-outcome (event (reset_event code) ∷ reports) req = refl
  run-outcome (bytes_read bytes ∷ reports) req =
      run-outcome reports (take_bytes x bytes req)
      ∙ rw (append_assoc req.body bytes (content reports)) refl

  module _ (q : QuicheLib x) where
    open q use {H3}

    -- However the loop over the events ends, in a driver whose HTTP/3 connection is up: there is a
    -- history of what the connection reported, such that a stream that was pending has become what its
    -- own reports in that history, in their order and up to the first that ends it, bring together.
    -- The status is the last legal one of the lines named `:status`, whose values are digits, with a
    -- plus before them at most, of numbers that a u16 holds; the other legal header lines stand behind
    -- the headers there were, and the bytes read stand in turn behind the body there was. While no
    -- report has ended the stream, the request waits with these. If the first such report says that
    -- the response is whole, the stream is gone and its channel was told the response with the URL
    -- of the request, these headers, this body and this status, or 200 if there was none; if it is a
    -- reset, the channel was told the error that names its code.
    pub poll_loop-IsFate :
        (fuel body_fuel : ℕ) (d : Driver x q) (h : H3) (id : ℕ) (req : PendingRequest x)
        → d.h3_conn ≡ some h
        → lookup id d.requests.pending ≡ some req
        → (history : History) × IsHeard x q h d (poll_loop x q fuel body_fuel d).1 history
          × IsFate x id req.response_tx
              (outcome x (own id history) req)
              (poll_loop x q fuel body_fuel d).1.requests
    poll_loop-IsFate fuel body_fuel d h id req e k =
        let (history, heard, f) = poll_loop-fate x q fuel body_fuel d h id req e k in
        (
          history,
          heard,
          subst (λ a. IsFate x id req.response_tx a (poll_loop x q fuel body_fuel d).1.requests)
              (fate-run id history req ∙ run-outcome (own id history) req) f,
        )
