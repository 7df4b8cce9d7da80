-- ===== src/Redirect/Tests.antt =====
-- The redirect engine run on concrete addresses: the chain of tests/redirect_chain.rs, a change of
-- port on one domain, and two hosts that are IP addresses.
use quik.Base.{
  suc, zero, true, false, none, some, [], ◌∷◌, ◌≡◌, refl, ◌⊎◌, insert, lookup, u16_to_string,
}
use quik.Effect.{ok}
use quik.Http.Sample.{sample_http}
use quik.Url.{UrlLib}
use quik.Url.Sample.{Address, sample_url}
use quik.Redirect.{Hop, first_hop, referer_to_send, next_hop, redirect}
use quik.Redirect.Policy.{IsConsistent, referer_to_send-next_hop, referer_to_send-same_domain}
use quik.Redirect.Chains.{Follows, Follows-IsConsistent, Follows-cross_site, Follows-method}

abbrev pub source_page : Address
source_page = record {
  text = "https://127.0.0.1:8443/source";
  protocol = "https";
  host = "127.0.0.1";
  is_domain = false;
  port_written = some 8443;
}

abbrev pub target_page : Address
target_page = record {
  text = "https://localhost:8443/target?secret=123";
  protocol = "https";
  host = "localhost";
  is_domain = true;
  port_written = some 8443;
}

abbrev pub other_port : Address
other_port = record {
  text = "https://localhost:9443/";
  protocol = "https";
  host = "localhost";
  is_domain = true;
  port_written = some 9443;
}

abbrev pub other_address : Address
other_address = record {
  text = "https://10.0.0.7/";
  protocol = "https";
  host = "10.0.0.7";
  is_domain = false;
  port_written = none;
}

abbrev pub web : UrlLib
web = sample_url (source_page ∷ target_page ∷ other_port ∷ other_address ∷ [])

abbrev to_target : sample_http.HeaderMap
to_target =
    sample_http.insert sample_http.empty "location" (sample_http.from_static target_page.text)

posted : Hop
unfolding first_hop
posted = first_hop "POST" source_page.text (some (1 ∷ []))

arrived : Hop
unfolding next_hop
arrived = next_hop web posted source_page target_page 302

abbrev to_other_port : sample_http.HeaderMap
to_other_port =
    sample_http.insert sample_http.empty "location" (sample_http.from_static other_port.text)

abbrev to_source : sample_http.HeaderMap
to_source =
    sample_http.insert sample_http.empty "location" (sample_http.from_static source_page.text)

-- On from the target, to another port of its domain and back to the source.
moved : Hop
unfolding arrived
moved = next_hop web arrived target_page other_port 307

back : Hop
unfolding moved
back = next_hop web moved other_port source_page 301

-- What the runs compute with.
engine : Unit {0}
unfolding redirect next_hop first_hop u16_to_string referer_to_send lookup insert posted arrived
    moved back
engine = tt

followed : redirect web sample_http posted source_page 302 to_target ≡ ok (some arrived)
unfolding engine
followed = refl

chain : Follows web sample_http posted (suc zero) arrived
unfolding engine
chain = Follows.step source_page 302 to_target Follows.here refl followed

referer_at_target : referer_to_send web arrived ≡ some "https://127.0.0.1:8443/"
unfolding engine
referer_at_target = refl

arrival : (arrived.current_method ≡ "GET") × (arrived.sec_fetch_site ≡ "cross-site")
unfolding engine
arrival = (refl, refl)

referer_to_send-next_hop_example :
    referer_to_send web (next_hop web posted source_page target_page 302)
    ≡ some "https://127.0.0.1:8443/"
unfolding engine
referer_to_send-next_hop_example =
    referer_to_send-next_hop web posted source_page target_page 302 refl

referer_to_send-same_domain_example :
    (referer_to_send web
        (next_hop web (first_hop "GET" target_page.text none) target_page other_port 307)
      ≡ some "https://localhost:8443/target?secret=123")
    × ((next_hop web
          (first_hop "GET" target_page.text none)
          target_page
          other_port
          307).sec_fetch_site
        ≡ "same-site")
unfolding engine
referer_to_send-same_domain_example =
    referer_to_send-same_domain web (first_hop "GET" target_page.text none) target_page other_port
      307 refl refl refl

-- Two unrelated IP addresses count as one site.
ip_hosts :
    (next_hop web
      (first_hop "GET" source_page.text none)
      source_page
      other_address
      307).sec_fetch_site
    ≡ "same-site"
unfolding engine
ip_hosts =
    (referer_to_send-same_domain web (first_hop "GET" source_page.text none) source_page
      other_address 307 refl refl refl).1

Follows-IsConsistent_example : IsConsistent arrived
unfolding engine
Follows-IsConsistent_example =
    Follows-IsConsistent web sample_http "POST" source_page.text (some (1 ∷ [])) 1 arrived chain

followed_on : redirect web sample_http arrived target_page 307 to_other_port ≡ ok (some moved)
unfolding engine
followed_on = refl

followed_back : redirect web sample_http moved other_port 301 to_source ≡ ok (some back)
unfolding engine
followed_back = refl

onward : Follows web sample_http arrived 2 back
unfolding engine
onward =
    Follows.step other_port 301 to_source
      (Follows.step target_page 307 to_other_port Follows.here refl followed_on) refl followed_back

Follows-cross_site_example :
    (back.is_cross_site ≡ true) × (back.sec_fetch_site ≡ arrived.sec_fetch_site)
unfolding engine
Follows-cross_site_example = Follows-cross_site web sample_http arrived back 2 onward refl

Follows-method_example :
    ((arrived.current_method ≡ "POST") × (arrived.current_body ≡ some (1 ∷ [])))
    ⊎ ((arrived.current_method ≡ "GET") × (arrived.current_body ≡ none))
unfolding engine
Follows-method_example =
    Follows-method web sample_http "POST" source_page.text (some (1 ∷ [])) 1 arrived chain
