-- ===== src/Request.antt =====
-- src/client/request.rs: the headers that are written into every outbound request.
pub mod Laws
pub mod Fetch
pub mod Contexts
pub mod Units
pub mod Tests
use quik.Base.{String, Bool, true, false, ◌&&◌, ◌||◌, Option, none, some, str_eq, if◌then◌else◌}
use quik.Http.{HttpLib}
use quik.Profile.{ChromeProfile}

pub data RequestContext : Type 0 where
  navigate xhr form iframe no_cors_script no_cors_style no_cors_image no_cors_font : RequestContext
  no_cors_media worker service_worker prefetch : RequestContext

abbrev pub page_accept : String
page_accept =
    "text/html,application/xhtml+xml,application/xml;q=0.9,image/avif,image/webp,image/apng,*/*;q=0.8,application/signed-exchange;v=b3;q=0.7"

abbrev pub image_accept : String
image_accept = "image/avif,image/webp,image/apng,image/svg+xml,image/*,*/*;q=0.8"

-- What `sec-fetch-mode`, `sec-fetch-dest` and `accept` say of a context.
unfoldable pub fetch_metadata : RequestContext → String × String × String
fetch_metadata navigate = ("navigate", "document", page_accept)
fetch_metadata form = ("navigate", "document", page_accept)
fetch_metadata iframe = ("navigate", "iframe", page_accept)
fetch_metadata xhr = ("cors", "empty", "*/*")
fetch_metadata no_cors_script = ("no-cors", "script", "*/*")
fetch_metadata no_cors_style = ("no-cors", "style", "text/css,*/*;q=0.1")
fetch_metadata no_cors_image = ("no-cors", "image", image_accept)
fetch_metadata no_cors_font = ("no-cors", "font", "*/*")
fetch_metadata no_cors_media = ("no-cors", "video", "*/*")
fetch_metadata worker = ("same-origin", "worker", "*/*")
fetch_metadata service_worker = ("same-origin", "serviceworker", "*/*")
fetch_metadata prefetch = ("no-cors", "empty", "*/*")

-- The contexts that count as a user's navigation.
unfoldable pub is_navigation : RequestContext → Bool
is_navigation navigate = true
is_navigation form = true
is_navigation iframe = true
is_navigation _ = false

module _ (h : HttpLib) where
  open h use {HeaderMap, HeaderValue, from_str, from_static}

  -- `if let Ok(val) = HeaderValue::from_str(text) { headers.insert(name, val); }`
  unfoldable pub insert_text : HeaderMap → String → String → HeaderMap
  insert_text m name text = elim (from_str text) [ none ↦ m | some val ↦ h.insert m name val ]

  abbrev pub insert_static : HeaderMap → String → String → HeaderMap
  insert_static m name text = h.insert m name (from_static text)

  -- 1. Client hints.
  unfoldable pub insert_hints : HeaderMap → ChromeProfile → Bool → HeaderMap
  insert_hints m profile accept_ch =
      let hinted =
        insert_text
          (insert_static (insert_text m "sec-ch-ua" profile.headers.sec_ch_ua) "sec-ch-ua-mobile"
            "?0")
          "sec-ch-ua-platform" profile.headers.sec_ch_ua_platform in
      if accept_ch
      then insert_text hinted "sec-ch-ua-platform-version"
          profile.headers.sec_ch_ua_platform_version
      else hinted

  -- 2. Navigation and fetch metadata.
  unfoldable pub insert_metadata :
      HeaderMap → ChromeProfile → String → Bool → RequestContext → Option String → HeaderMap
  unfolding fetch_metadata is_navigation
  insert_metadata m profile sec_fetch_site is_initial_navigation context referer =
      let (mode, dest, accept_val) = fetch_metadata context in
      let agent =
        insert_text (insert_static m "upgrade-insecure-requests" "1") "user-agent"
          profile.headers.user_agent in
      let sited = insert_text agent "sec-fetch-site" sec_fetch_site in
      let moded = insert_static (insert_static sited "accept" accept_val) "sec-fetch-mode" mode in
      let used =
        if is_initial_navigation && is_navigation context
        then insert_static moded "sec-fetch-user" "?1"
        else moded in
      let aimed = insert_static used "sec-fetch-dest" dest in
      elim referer [ none ↦ aimed | some r ↦ insert_text aimed "referer" r ]

  -- 3. Compression and language. 4. The priority header.
  unfoldable pub insert_preferences : HeaderMap → ChromeProfile → HeaderMap
  insert_preferences m profile =
      let encoding =
        if profile.headers.zstd_encoding then "gzip, deflate, br, zstd" else "gzip, deflate, br" in
      let spoken =
        insert_text (insert_static m "accept-encoding" encoding) "accept-language"
          profile.headers.accept_language in
      if profile.headers.include_priority_header
      then insert_static spoken "priority" "u=0, i"
      else spoken

  abbrev pub mark : String → HeaderValue → HeaderValue
  mark name value =
      if str_eq name "cookie" || str_eq name "authorization"
      then h.set_sensitive true value
      else value

  -- 5. The values that HPACK must never index.
  unfoldable pub mark_sensitive : HeaderMap → HeaderMap
  mark_sensitive = h.update_each mark

  unfoldable pub inject_chrome_headers :
      HeaderMap → ChromeProfile → String → Bool → RequestContext → Bool → Option String → HeaderMap
  inject_chrome_headers m profile sec_fetch_site is_initial_navigation context accept_ch referer =
      mark_sensitive (
        insert_preferences
          (insert_metadata (insert_hints m profile accept_ch) profile sec_fetch_site
            is_initial_navigation context referer)
          profile)
