-- ===== src/Request/Units.antt =====
-- src/client/request.rs, its unit tests, over any header map and any draw: a test answers whether its
-- assertions hold.
use quik.Base.{String, Bool, true, false, not, ◌&&◌, Option, none, some, str_eq, contains, is_some}
use quik.Http.{HttpLib}
use quik.Profile.Chrome134.{chrome_134_windows_x64}
use quik.Profile.Draw.{Draw}
use quik.Request.{
  navigate, xhr, no_cors_image, service_worker, insert_static, inject_chrome_headers,
}

module _ (h : HttpLib) where
  open h use {HeaderMap}

  -- `headers.get(name).unwrap().to_str().unwrap()`, where that does not panic.
  abbrev text_of : HeaderMap → String → Option String
  text_of headers name = elim (h.get headers name) [ none ↦ none | some v ↦ h.to_str v ]

  abbrev reads : HeaderMap → String → String → Bool
  reads headers name expected = elim (text_of headers name) [
    | none ↦ false
    | some text ↦ str_eq text expected
  ]

  abbrev holds_text : HeaderMap → String → String → Bool
  holds_text headers name part = elim (text_of headers name) [
    | none ↦ false
    | some text ↦ contains text part
  ]

  abbrev is_absent : HeaderMap → String → Bool
  is_absent headers name = not (is_some (h.get headers name))

  abbrev is_marked : HeaderMap → String → Option Bool
  is_marked headers name = elim (h.get headers name) [
    | none ↦ none
    | some v ↦ some (h.is_sensitive v)
  ]

  abbrev equals : Option Bool → Bool → Bool
  equals none b = false
  equals (some true) b = b
  equals (some false) b = not b

  unfoldable pub test_inject_chrome_headers_context_mapping : Draw → Bool
  test_inject_chrome_headers_context_mapping d =
      let profile = chrome_134_windows_x64 d in
      let first = inject_chrome_headers h h.empty profile "same-origin" true navigate false none in
      let second = inject_chrome_headers h h.empty profile "cross-site" false xhr true none in
      let third =
        inject_chrome_headers h h.empty profile "same-site" false no_cors_image false none in
      let fourth =
        inject_chrome_headers h h.empty profile "same-origin" false service_worker false none in
      (reads first "sec-fetch-dest" "document"
        && reads first "sec-fetch-mode" "navigate"
        && reads first "sec-fetch-user" "?1"
        && is_absent first "sec-ch-ua-platform-version")
      && (reads second "sec-fetch-dest" "empty"
          && reads second "sec-fetch-mode" "cors"
          && is_absent second "sec-fetch-user"
          && reads second "sec-ch-ua-platform-version" "\"15.0.0\"")
      && (reads third "sec-fetch-dest" "image"
          && reads third "sec-fetch-mode" "no-cors"
          && holds_text third "accept" "image/avif")
      && (reads fourth "sec-fetch-dest" "serviceworker"
          && reads fourth "sec-fetch-mode" "same-origin")

  unfoldable pub test_inject_sensitive_headers_marked_properly : Draw → Bool
  test_inject_sensitive_headers_marked_properly d =
      let profile = chrome_134_windows_x64 d in
      let headers =
        insert_static h
          (insert_static h (insert_static h h.empty "cookie" "session=123") "authorization"
            "Bearer token")
          "host" "example.com" in
      let headers = inject_chrome_headers h headers profile "none" true navigate false none in
      equals (is_marked headers "cookie") true
      && equals (is_marked headers "authorization") true
      && equals (is_marked headers "host") false
