-- ===== src/AltSvc/Tests.antt =====
-- The Alt-Svc cache on concrete origins, over the sample `url` and `http`.
use quik.Base.{String, true, false, none, some, [], ◌∷◌, ◌≡◌, refl, inl, lookup}
use quik.Http.Sample.{sample_http}
use quik.Url.{UrlLib}
use quik.Url.Sample.{Address, sample_url}
use quik.Keys.{origin_key, request_port}
use quik.AltSvc
use quik.AltSvc.{AltSvcCache, store_alt_svc}
use quik.AltSvc.Laws.{get-store_alt_svc, get-store_alt_svc_http}

abbrev secure_page : Address
secure_page = record {
  text = "https://a.example/";
  protocol = "https";
  host = "a.example";
  is_domain = true;
  port_written = none;
}

abbrev plain_page : Address
plain_page = record {
  text = "http://a.example/";
  protocol = "http";
  host = "a.example";
  is_domain = true;
  port_written = none;
}

abbrev web : UrlLib
web = sample_url (secure_page ∷ plain_page ∷ [])

abbrev advert : String
advert = "h3=\":443\"; ma=86400"

abbrev headers : sample_http.HeaderMap
headers = ("alt-svc", record { text = advert; sensitive = false }) ∷ []

get-store_alt_svc_example :
    AltSvc.get
      (store_alt_svc web sample_http AltSvc.empty headers secure_page)
      (origin_key "a.example" (request_port web secure_page))
    ≡ some advert
unfolding lookup AltSvc.empty
get-store_alt_svc_example =
    get-store_alt_svc web sample_http AltSvc.empty headers secure_page "a.example" advert
      (record { text = advert; sensitive = false }) refl refl refl refl refl (inl (λ e. cc))

get-store_alt_svc_http_example :
    (AltSvc.get
        (store_alt_svc web sample_http AltSvc.empty headers plain_page)
        (origin_key "a.example" (request_port web plain_page))
      ≡ AltSvc.get AltSvc.empty (origin_key "a.example" (request_port web plain_page)))
    × (AltSvc.get
          (store_alt_svc web sample_http AltSvc.empty headers plain_page)
          (origin_key "a.example" 443)
        ≡ some advert)
unfolding lookup AltSvc.empty
get-store_alt_svc_http_example =
    get-store_alt_svc_http web sample_http AltSvc.empty headers plain_page "a.example" advert
      (record { text = advert; sensitive = false }) refl refl refl refl refl refl refl
