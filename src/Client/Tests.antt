-- ===== src/Client/Tests.antt =====
-- A client on the concrete outside: a request that is answered, and a connection whose HTTP/3 dial is
-- blocked.
use quik.Base.{
  ℕ, String, lookup, insert, u16_to_string, true, false, none, some, List, [], ◌∷◌, ◌≡◌, refl,
  arith,
}
use quik.Effect.{Result, pure, ok, err, Ended}
use quik.Externals.{Externals}
use quik.Externals.Sample.{sample, sample_external_laws}
use quik.Url.Sample.{Address, sample_url_laws}
use quik.Keys.{origin_key, pool_key, request_port}
use quik.Quic.{configure_chrome_quic_transport}
use quik.Connector
use quik.Connector.{open_connection}
use quik.Tls.{build_connector}
use quik.Profile.Chrome148
use quik.AltSvc
use quik.AltSvc.{store_alt_svc}
use quik.Profile.Draw.{Draw}
use quik.Redirect.{Hop, first_hop, next_hop, redirect}
use quik.Http.Sample.{sample_http, sample_laws}
use quik.Client.Sent.{IsFor, build_request-IsFor}
use quik.Request.{navigate, form, inject_chrome_headers, insert_text}
use quik.Response.{Request, Response, http2_body}
use quik.Client
use quik.Client.{
  open_slot, slot, set_slot, dial, PooledConnection, http2, http3, is_http3, Client, ClientBuilder,
  build,
}
use quik.Client.Slots.{IsTyped, build-IsTyped}
use quik.Client.Acquire.{acquire, transmit}
use quik.Client.Fallback.{acquire-IsTyped, acquire-evicts, transmit-IsTyped}
use quik.Client.Execute.{build_request, execute_with_redirects}
use quik.Client.Completion.{execute_with_redirects_ends}
use quik.Client.Calls.{Call, after, after-build-IsTyped}
use quik.Client.Chain.{Arrived, execute_with_redirects-Arrived}

abbrev page : Address
page = record {
  text = "https://a.example/";
  protocol = "https";
  host = "a.example";
  is_domain = true;
  port_written = none;
}

-- UDP is blocked here.
abbrev outside : Externals
outside = record (sample (page ∷ [])) { quic_connect = λ h l a c w. (err "blocked", w) }

abbrev drawn : Draw
drawn = record { brand = 0; version = 0; position = 0 }

abbrev plain : ClientBuilder outside
plain = record {
  profile = none;
  proxy = none;
  cookie_store = none;
  danger_accept_invalid_certs = false;
}

abbrev client : Client outside
client = build outside drawn "linux" tt [] plain

execute_with_redirects_ends_example :
    Ended (execute_with_redirects outside "GET" "https://a.example/" none navigate client)
execute_with_redirects_ends_example =
    execute_with_redirects_ends outside
      (record {
        read-length = (sample_external_laws (page ∷ [])).read-length;
        read_exact-length = (sample_external_laws (page ∷ [])).read_exact-length;
      })
      "GET" "https://a.example/" none navigate client

abbrev visits : List (Call outside)
visits =
    record { method = "GET"; target = "https://a.example/"; body = none; context = navigate }
    ∷ record {
      method = "POST";
      target = "https://a.example/";
      body = some (1 ∷ []);
      context = navigate;
    }
    ∷ []

after-build-IsTyped_example : IsTyped outside none (after outside visits client)
after-build-IsTyped_example =
    after-build-IsTyped outside (sample_url_laws (page ∷ [])) none drawn "linux" tt [] plain visits
      refl

acquire-IsTyped_example : IsTyped outside none (acquire outside "a.example" 443 true client).1
acquire-IsTyped_example =
    acquire-IsTyped outside none "a.example" 443 true client (omega arith)
      (build-IsTyped outside none drawn "linux" tt [] plain refl)

-- The HTTP/2 connection that the blocked dial falls back to.
abbrev fallen_back : PooledConnection outside
fallen_back = http2 (record { h2 = tt; profile = client.profile })

-- What the runs compute with.
engine : Unit {0}
unfolding acquire open_slot build slot lookup insert pool_key u16_to_string dial
    configure_chrome_quic_transport Chrome148.profile_auto open_connection build_connector set_slot
    execute_with_redirects first_hop request_port AltSvc.get AltSvc.empty Client.send Connector.send
    transmit redirect store_alt_svc inject_chrome_headers insert_text next_hop
engine = tt

falls_back :
    acquire outside "a.example" 443 true client
    ≡ (ok fallen_back, (acquire outside "a.example" 443 true client).1)
unfolding engine
falls_back = refl

acquire-evicts_example :
    AltSvc.get
      (acquire outside "a.example" 443 true client).1.alt_svc_cache
      (origin_key "a.example" 443)
    ≡ none
acquire-evicts_example =
    acquire-evicts outside none "a.example" 443 (omega arith) client
      (acquire outside "a.example" 443 true client).1 fallen_back
      (build-IsTyped outside none drawn "linux" tt [] plain refl) falls_back refl

abbrev answer : Response outside
answer = record { status = 200; headers = []; body = http2_body tt; url = "https://a.example/" }

answers : execute_with_redirects outside "GET" "https://a.example/" none navigate client ≡ (
  ok answer,
  (execute_with_redirects outside "GET" "https://a.example/" none navigate client).1,
)
unfolding engine
answers = refl

abbrev moved_to : Address
moved_to = record page { text = "https://a.example/new" }

-- The peer answers a block with a redirect, and after the blocks with the page.
abbrev turning :
    List (List ℕ) → Result String (ℕ × sample_http.HeaderMap × Unit {0}) × List (List ℕ)
turning [] = (ok (200, [], tt), [])
turning (block ∷ blocks) = (
  ok (
    301,
    sample_http.insert sample_http.empty "location" (sample_http.from_static moved_to.text),
    tt,
  ),
  blocks,
)

abbrev redirecting : Externals
redirecting = record (sample (page ∷ moved_to ∷ [])) { h2_response = λ f w. turning w }

abbrev calm : ClientBuilder redirecting
calm = record {
  profile = none;
  proxy = none;
  cookie_store = none;
  danger_accept_invalid_certs = false;
}

abbrev visitor : Client redirecting
visitor = build redirecting drawn "linux" tt ([] ∷ []) calm

abbrev page_moved : Response redirecting
page_moved = record {
  status = 200;
  headers = [];
  body = http2_body tt;
  url = "https://a.example/new";
}

moves : execute_with_redirects redirecting "POST" "https://a.example/" none form visitor ≡ (
  ok page_moved,
  (execute_with_redirects redirecting "POST" "https://a.example/" none form visitor).1,
)
unfolding engine
moves = refl

execute_with_redirects-Arrived_example :
    Arrived redirecting form true (first_hop "POST" "https://a.example/" none) 10 page_moved
execute_with_redirects-Arrived_example =
    execute_with_redirects-Arrived redirecting "POST" "https://a.example/" none form visitor
      (execute_with_redirects redirecting "POST" "https://a.example/" none form visitor).1
      page_moved moves

abbrev question : Request outside
question = record { method = "GET"; uri = "https://a.example/"; headers = [] }

transmit-IsTyped_example :
    IsTyped outside none
      (transmit outside "a.example" 443
        (pure question)
        none
        (http3 (record { tx = tt; profile = client.profile }))
        client).1
transmit-IsTyped_example =
    transmit-IsTyped outside none "a.example" 443 (pure question) none
      (http3 (record { tx = tt; profile = client.profile })) client (omega arith) (λ d p. p)
      (build-IsTyped outside none drawn "linux" tt [] plain refl)

abbrev form_hop : Hop
form_hop = record (first_hop "POST" "https://a.example/" (some (1 ∷ []))) {
  sec_fetch_site = "same-origin";
}

build_request-IsFor_example :
    (request : Request outside) × (build_request outside form_hop page
        (some "a=1")
        false
        form
        false
        (some "https://a.example/")
        client
      ≡ (ok request, client))
    × IsFor outside sample_laws form_hop page
        (some "a=1")
        false
        form
        false
        (some "https://a.example/")
        client
        request
build_request-IsFor_example =
    build_request-IsFor outside sample_laws form_hop page (some "a=1") false form false
      (some "https://a.example/") client refl
