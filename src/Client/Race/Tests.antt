-- ===== src/Client/Race/Tests.antt =====
-- Calls to one origin, turn by turn.
use quik.Base.{ℕ, ◌==◌, true, false, none, some, List, [], ◌∷◌, ◌++◌, ◌≡◌, refl, if◌then◌else◌}
use quik.Client.Race.{
  Protocol, h3, h2, done, crossing, Turn, turn, run, step, cancel, peek, enter, dialled, cross,
  retry, clear, rechecked, resent, peeking, unconnected,
}
use quik.Client.Race.Serial.{IsSerial, run-IsSerial}
use quik.Client.Race.Endings.{Ends}
use quik.Client.Race.Progress.{run-Ends}
use quik.Base.{lookup, u16_to_string, arith}
use quik.Effect.{err}
use quik.Externals.{Externals}
use quik.Externals.Sample.{sample}
use quik.Url.Sample.{Address}
use quik.Profile.Draw.{Draw}
use quik.Lock
use quik.AltSvc
use quik.Keys.{origin_key, request_port}
use quik.Redirect.{first_hop}
use quik.Request.{navigate}
use quik.Client.Execute.{exchange_at}
use quik.Client.{Client, ClientBuilder, build, slot}
use quik.Client.Slots.{build-IsTyped}
use quik.Client.Acquire.{acquire}
use quik.Client.Race.Serving.{Serves}
use quik.Client.Race.Exchange.{exchange_at-Serves}
use quik.Client.Race.Shown.{Site}
use quik.Client.Race.Alone.{IsRun}
use quik.Client.Race.Acquiring.{acquire-IsRun}

abbrev yes : ℕ → Turn
yes i = (i, some true)

abbrev no : ℕ → Turn
no i = (i, some false)

abbrev over_2 : ℕ → Protocol
over_2 i = h2

-- Call 0 goes over HTTP/3, the others over HTTP/2.
abbrev first_over_3 : ℕ → Protocol
first_over_3 i = if i == 0 then h3 else h2

-- One dials, two find its connection lost, and the quicker of them fills the slot again.
abbrev losing : List Turn
losing = yes 0 ∷ yes 0 ∷ yes 0 ∷ yes 1 ∷ yes 2 ∷ no 1 ∷ no 2 ∷ yes 1 ∷ yes 1 ∷ yes 1 ∷ yes 1 ∷ []

refilled : (run losing (unconnected over_2)).slot_2.held ≡ some 1
unfolding run turn step peek enter dialled clear
refilled = refl

-- The slower one empties the slot: its verdict was on connection 0, but the slot has connection 1.
emptied_again : (run (losing ++ yes 2 ∷ []) (unconnected over_2)).slot_2.held ≡ none
unfolding run turn step peek enter dialled clear
emptied_again = refl

-- The dial of HTTP/3 fails while another call dials for HTTP/2.
abbrev falling_back : List Turn
falling_back = yes 0 ∷ yes 0 ∷ no 0 ∷ yes 1 ∷ yes 1 ∷ yes 0 ∷ []

waits : (run falling_back (unconnected first_over_3)).tasks 0 ≡ crossing
unfolding run turn step peek enter dialled cross
waits = refl

-- The other connection serves both.
shares : (run (falling_back ++ yes 1 ∷ yes 0 ∷ []) (unconnected first_over_3)).tasks 0 ≡ done h2 0
unfolding run turn step peek enter dialled cross
shares = refl

-- A call that is dropped with both locks gives both back.
dropped :
    (run (yes 0 ∷ yes 0 ∷ no 0 ∷ yes 0 ∷ (0, none) ∷ []) (unconnected first_over_3)).slot_3.lock
    ≡ none
unfolding run turn step cancel peek enter dialled cross
dropped = refl

-- HTTP/3 loses a request, and a connection that HTTP/2 has is ready for it.
abbrev losing_request : List Turn
losing_request = yes 1 ∷ yes 1 ∷ yes 1 ∷ yes 0 ∷ yes 0 ∷ yes 0 ∷ no 0 ∷ yes 0 ∷ yes 0 ∷ []

-- While it is sent again over that one, call 2 has to wait.
resends : (run (losing_request ++ yes 2 ∷ []) (unconnected first_over_3)).tasks 2 ≡ peeking h2
unfolding run turn step peek enter dialled retry rechecked
resends = refl

resent_over_2 : (run (losing_request ++ yes 0 ∷ []) (unconnected first_over_3)).tasks 0 ≡ done h2 0
unfolding run turn step peek enter dialled retry rechecked resent
resent_over_2 = refl

run-IsSerial_example : IsSerial (run losing_request (unconnected first_over_3))
run-IsSerial_example = run-IsSerial first_over_3 losing_request

run-Ends_example : Ends 2 (run losing_request (unconnected first_over_3))
run-Ends_example = run-Ends first_over_3 losing_request 2

-- A client that was just built, where UDP is blocked.
abbrev page : Address
page = record {
  text = "https://a.example/";
  protocol = "https";
  host = "a.example";
  is_domain = true;
  port_written = none;
}

abbrev blocked : Externals
blocked = record (sample (page ∷ [])) { quic_connect = λ h l a c w. (err "blocked", w) }

abbrev drawn : Draw
drawn = record { brand = 0; version = 0; position = 0 }

abbrev plain : ClientBuilder blocked
plain = record {
  profile = none;
  proxy = none;
  cookie_store = none;
  danger_accept_invalid_certs = false;
}

abbrev client : Client blocked
client = build blocked drawn "linux" tt [] plain

abbrev site : Site
site = record { proxy = none; host = "a.example"; port = 443; bound = omega arith }

acquire-IsRun_example :
    IsRun blocked site 0 (unconnected first_over_3) (acquire blocked "a.example" 443 true client)
unfolding build slot lookup
acquire-IsRun_example =
    acquire-IsRun blocked site 0 h3 (unconnected first_over_3) client refl refl refl (record {
      healthy = refl;
      is_typed = build-IsTyped blocked none drawn "linux" tt [] plain refl;
      shown_3 = refl;
      shown_2 = refl;
    })

-- It was told that the origin speaks HTTP/3.
abbrev told : Client blocked
told = record client { alt_svc_cache = Lock.fresh (("a.example:443", "h3") ∷ []) }

exchange_at-Serves_example :
    Serves blocked site 0
      (unconnected first_over_3)
      (exchange_at blocked navigate true (first_hop "GET" "https://a.example/" none) page told)
unfolding build slot lookup AltSvc.get origin_key request_port u16_to_string
exchange_at-Serves_example =
    let t = build-IsTyped blocked none drawn "linux" tt [] plain refl in
    exchange_at-Serves blocked site 0 navigate true (first_hop "GET" "https://a.example/" none) page
      h3 (unconnected first_over_3) told refl refl refl refl refl refl refl refl refl
      (record {
        healthy = refl;
        is_typed = record { same_proxy = t.same_proxy; typed = t.typed };
        shown_3 = refl;
        shown_2 = refl;
      })
