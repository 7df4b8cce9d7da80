-- ===== src/Driver/Outcome.antt =====
-- src/client/quic.rs, the loop over the events: what the reports of a stream bring together, read off
-- their list and not by steps.
use quik.Base.{
  ℕ, ◌==◌, List, [], ◌∷◌, ◌++◌, Option, none, some, inl, inr, unwrap_or, decimal, format,
  if◌then◌else◌,
}
use quik.Effect.{ok, err}
use quik.Failure.{connect, other}
use quik.Externals.{Externals}
use quik.Quiche.{headers_event, data_event, finished_event, other_event, reset_event}
use quik.Response.{http3_body}
use quik.Driver.Status.{names_status, number_of}
use quik.Driver.{PendingRequest}
use quik.Driver.History.{Report, event, bytes_read, History, Fate}

-- The reports of one stream, the first of them in front.
unfoldable pub own : ℕ → History → List Report
own id [] = []
own id ((j, report) ∷ history) = if j == id then own id history ++ (report ∷ []) else own id history

-- The header lines that came before the stream ended.
unfoldable pub lines : List Report → List (List ℕ × List ℕ)
lines [] = []
lines (event (headers_event list) ∷ reports) = list ++ lines reports
lines (event finished_event ∷ reports) = []
lines (event (reset_event code) ∷ reports) = []
lines (event data_event ∷ reports) = lines reports
lines (event other_event ∷ reports) = lines reports
lines (bytes_read bytes ∷ reports) = lines reports

-- The bytes that came before the stream ended.
unfoldable pub content : List Report → List ℕ
content [] = []
content (bytes_read bytes ∷ reports) = bytes ++ content reports
content (event finished_event ∷ reports) = []
content (event (reset_event code) ∷ reports) = []
content (event (headers_event list) ∷ reports) = content reports
content (event data_event ∷ reports) = content reports
content (event other_event ∷ reports) = content reports

pub data End : Type 0 where
  open_ whole : End
  torn : ℕ → End

-- How the stream ended first, if it did.
unfoldable pub end_of : List Report → End
end_of [] = open_
end_of (event finished_event ∷ reports) = whole
end_of (event (reset_event code) ∷ reports) = torn code
end_of (event (headers_event list) ∷ reports) = end_of reports
end_of (event data_event ∷ reports) = end_of reports
end_of (event other_event ∷ reports) = end_of reports
end_of (bytes_read bytes ∷ reports) = end_of reports

module _ (x : Externals) where
  open x use {http}
  open http use {HeaderMap}

  -- The last legal status of the lines named `:status`, or the one there was.
  unfoldable pub status_after : List (List ℕ × List ℕ) → Option ℕ → Option ℕ
  status_after [] old = old
  status_after ((name, value) ∷ rest) old = status_after rest (
      if names_status name
      then elim (number_of value) [
        | none ↦ old
        | some code ↦ elim (http.from_u16 code) [ none ↦ old | some status ↦ some status ]
      ]
      else old)

  -- Every other line is appended in turn, if its name and its value are legal.
  unfoldable pub fields_after : List (List ℕ × List ℕ) → HeaderMap → HeaderMap
  fields_after [] old = old
  fields_after ((name, value) ∷ rest) old = fields_after rest (
      if names_status name then old else elim (http.name_from_bytes name) [
        | none ↦ old
        | some n ↦ elim (http.value_from_bytes value) [ none ↦ old | some v ↦ http.append old n v ]
      ])

  -- A request with what reports brought it.
  unfoldable pub brought : List Report → PendingRequest x → PendingRequest x
  unfolding status_after fields_after lines content
  brought reports req = record req {
    status = status_after (lines reports) req.status;
    headers = fields_after (lines reports) req.headers;
    body = req.body ++ content reports;
  }

  -- It waits on, or it is answered with the whole response, or with the error of a reset.
  unfoldable pub closing : End → PendingRequest x → Fate x
  closing open_ req = inl req
  closing whole req = inr (
      ok (record {
        status = unwrap_or req.status 200;
        headers = req.headers;
        body = http3_body req.body;
        url = req.url;
      }))
  closing (torn code) req = inr (
      err (
        connect (other (format ("HTTP/3 stream reset by peer: error " ∷ decimal 20 code "" ∷ [])))))

  -- What reports make of a request.
  unfoldable pub outcome : List Report → PendingRequest x → Fate x
  unfolding brought closing end_of
  outcome reports req = closing (end_of reports) (brought reports req)
