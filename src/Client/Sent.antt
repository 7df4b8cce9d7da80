-- ===== src/Client/Sent.antt =====
-- src/client/pool.rs: what leaves in the request of a hop, that of `execute_with_redirects` and that of
-- its retry over HTTP/2.
use mathlib.Core.Option
use quik.Base.{
  String, Bool, true, false, ◌&&◌, Option, none, some, List, ◌∷◌, str_eq, eq_iff, arith, member,
  if◌then◌else◌, ◌≡◌, refl, ◌∙◌, ap, inl, inr, Bool-cases,
}
use quik.Effect.{ok}
use quik.Externals.{Externals}
use quik.Http.{HttpLaws}
use quik.Redirect.{Hop}
use quik.Request.{RequestContext, fetch_metadata, mark, inject_chrome_headers}
use quik.Request.Contexts.{
  body_methods, mode_of, destination_of, fetch_metadata-mode_of, fetch_metadata-destination_of,
  is_navigation-mode_of,
}
use quik.Request.Laws.{
  put, put_all, hint_writes, metadata_writes, preference_writes, written, get-insert_text, put-none,
  or_else, get-inject_chrome_headers,
}
use quik.Request.Fetch.{written_names, other_names_kept}
use quik.Response.{Request}
use quik.Client.{Client}
use quik.Client.Execute.{carries_body, first_headers, build_request}

-- A value over nothing.
over_none :
    {V : Type 0} (f g : V → V) (v : Option V)
    → ((w : V) → f w ≡ g w)
    → Option.map f (or_else v none) ≡ Option.map g v
over_none f g none e = refl
over_none f g (some w) e = ap some (e w)

unchanged :
    {V : Type 0} (f : V → V) (v : Option V)
    → ((w : V) → f w ≡ w)
    → Option.map f (or_else v none) ≡ v
unchanged f none e = refl
unchanged f (some w) e = ap some (e w)

str_eq_comm : (s t : String) → str_eq s t ≡ str_eq t s
str_eq_comm s t = ground (arith, eq_iff s t, eq_iff t s)

carries_body-member : (method : String) → carries_body method ≡ member method body_methods
unfolding carries_body member
carries_body-member method =
    rw (str_eq_comm method "POST", str_eq_comm method "PUT", str_eq_comm method "PATCH")
      (ground arith)

apart :
    (j k : String) (names : List String)
    → member j (k ∷ names) ≡ false
    → (str_eq k j ≡ false) × (member j names ≡ false)
unfolding member
apart j k names e = (ground arith, ground arith)

module _ (x : Externals) (l : HttpLaws x.http) where
  open x use {http, url, refusal}
  open http use {HeaderMap, HeaderValue, get, from_str, from_static, set_sensitive}

  abbrev pub value_of : Option String → Option HeaderValue
  value_of text = elim text [ none ↦ none | some s ↦ from_str s ]

  abbrev pub origin_of : Hop → url.Url → Option HeaderValue
  origin_of hop parsed_url =
      if member hop.current_method body_methods
      then from_str (url.ascii_serialization (url.origin parsed_url))
      else none

  get-first_headers :
      (hop : Hop) (parsed_url : url.Url) (cookie : Option String) (j : String)
      → get (first_headers x hop parsed_url cookie) j
        ≡ put "origin" (origin_of hop parsed_url) j (put "cookie" (value_of cookie) j none)
  unfolding first_headers
  get-first_headers hop parsed_url none j =
      elim (Bool-cases (member hop.current_method body_methods)) [
        | inl e ↦
            rw (carries_body-member hop.current_method, e)
              (simp (get-insert_text, l.get-empty, put-none))
        | inr e ↦ rw (carries_body-member hop.current_method, e) (simp (l.get-empty, put-none))
      ]
  get-first_headers hop parsed_url (some text) j =
      elim (Bool-cases (member hop.current_method body_methods)) [
        | inl e ↦
            rw (carries_body-member hop.current_method, e) (simp (get-insert_text, l.get-empty))
        | inr e ↦
            rw (carries_body-member hop.current_method, e)
              (simp (get-insert_text, l.get-empty, put-none))
      ]

  -- The headers of a hop, and no others.
  pub record IsFor (hop : Hop) (parsed_url : url.Url) (cookie : Option String) (initial : Bool)
      (context : RequestContext) (accept_ch : Bool) (referer : Option String) (c : Client x)
      (request : Request x) : Type 0 where
    pub same_method : request.method ≡ hop.current_method
    pub same_uri : request.uri ≡ url.as_str parsed_url
    pub cookie_sent :
        get request.headers "cookie" ≡ Option.map (set_sensitive true) (value_of cookie)
    pub origin_sent : get request.headers "origin" ≡ origin_of hop parsed_url
    pub site_sent : get request.headers "sec-fetch-site" ≡ from_str hop.sec_fetch_site
    pub agent_sent : get request.headers "user-agent" ≡ from_str c.profile.headers.user_agent
    pub referer_sent : get request.headers "referer" ≡ value_of referer
    pub mode_sent : get request.headers "sec-fetch-mode" ≡ some (from_static (mode_of context))
    pub destination_sent :
        get request.headers "sec-fetch-dest" ≡ some (from_static (destination_of context))
    pub user_sent :
        get request.headers "sec-fetch-user"
        ≡ (if initial && str_eq (mode_of context) "navigate" then some (from_static "?1") else none)
    pub version_sent :
        get request.headers "sec-ch-ua-platform-version"
        ≡ (if accept_ch then from_str c.profile.headers.sec_ch_ua_platform_version else none)
    pub nothing_else :
        (j : String)
        → member j ("cookie" ∷ "origin" ∷ written_names) ≡ false
        → get request.headers j ≡ none

  module _ (hop : Hop) (parsed_url : url.Url) (cookie : Option String) (initial : Bool)
      (context : RequestContext) (accept_ch : Bool) (referer : Option String) (c : Client x) where
    abbrev built : Request x
    built = record {
      method = hop.current_method;
      uri = url.as_str parsed_url;
      headers =
          inject_chrome_headers http (first_headers x hop parsed_url cookie) c.profile
            hop.sec_fetch_site initial context accept_ch referer;
    }

    table :
        (j : String)
        → get built.headers j
          ≡ Option.map (mark http j) (
              written http l
                (first_headers x hop parsed_url cookie)
                c.profile
                hop.sec_fetch_site
                initial
                context
                accept_ch
                referer
                j)
    table =
        get-inject_chrome_headers http l (first_headers x hop parsed_url cookie) c.profile
          hop.sec_fetch_site initial context accept_ch referer

    kept :
        (j : String)
        → member j written_names ≡ false
        → get built.headers j
          ≡ Option.map
              (mark http j)
              (put "origin" (origin_of hop parsed_url) j (put "cookie" (value_of cookie) j none))
    kept j e =
        other_names_kept http l (first_headers x hop parsed_url cookie) c.profile hop.sec_fetch_site
          initial context accept_ch referer j e
        ∙ ap (Option.map (mark http j)) (get-first_headers hop parsed_url cookie j)

    -- What is written under a name that the first headers do not have.
    named :
        (j : String) (v : Option HeaderValue)
        → ((old : Option HeaderValue)
            → put_all (preference_writes http c.profile) j (
                put_all
                  (metadata_writes http c.profile hop.sec_fetch_site initial context referer)
                  j
                  (put_all (hint_writes http c.profile accept_ch) j old))
              ≡ or_else v old)
        → put "origin" (origin_of hop parsed_url) j (put "cookie" (value_of cookie) j none) ≡ none
        → get built.headers j ≡ Option.map (mark http j) (or_else v none)
    named j v e n =
        table j
        ∙ ap (Option.map (mark http j))
            (e _ ∙ ap (or_else v) (get-first_headers hop parsed_url cookie j ∙ n))

    built-IsFor : IsFor hop parsed_url cookie initial context accept_ch referer c built
    unfolding member put
    built-IsFor = record {
      same_method = refl;
      same_uri = refl;
      cookie_sent =
          kept "cookie" refl ∙ over_none (mark http "cookie") (set_sensitive true) _ (λ w. refl);
      origin_sent = kept "origin" refl ∙ unchanged (mark http "origin") _ (λ w. refl);
      site_sent = named "sec-fetch-site" _ (λ old. refl) refl ∙ unchanged _ _ (λ w. refl);
      agent_sent = named "user-agent" _ (λ old. refl) refl ∙ unchanged _ _ (λ w. refl);
      referer_sent = named "referer" _ (λ old. refl) refl ∙ unchanged _ _ (λ w. refl);
      mode_sent =
          named "sec-fetch-mode" (some (from_static (fetch_metadata context).0)) (λ old. refl) refl
          ∙ unchanged _ _ (λ w. refl)
          ∙ ap (λ t. some (from_static t)) (fetch_metadata-mode_of context);
      destination_sent =
          named "sec-fetch-dest" (some (from_static (fetch_metadata context).1)) (λ old. refl) refl
          ∙ unchanged _ _ (λ w. refl)
          ∙ ap (λ t. some (from_static t)) (fetch_metadata-destination_of context);
      user_sent =
          named "sec-fetch-user" _ (λ old. refl) refl
          ∙ unchanged _ _ (λ w. refl)
          ∙ ap (λ b. if initial && b then some (from_static "?1") else none)
              (is_navigation-mode_of context);
      version_sent =
          named "sec-ch-ua-platform-version" _ (λ old. refl) refl ∙ unchanged _ _ (λ w. refl);
      nothing_else = λ j e.
          let (cookie_apart, e) = apart j "cookie" ("origin" ∷ written_names) e in
          let (origin_apart, e) = apart j "origin" written_names e in
          kept j e ∙ rw (cookie_apart, origin_apart) refl;
    }

    -- The request of a hop, where the builder of `http` does not refuse its method and URL: it has
    -- them, the cookie text it is made with, marked for HPACK, the origin if the method is POST, PUT or
    -- PATCH, the site of the hop, the browser of the profile, the referer, the mode and the destination
    -- of the context, the mark of a user on the first hop of a context whose mode is `navigate`, the
    -- platform version if it is due, and no header under a name that is not among these and the others
    -- of the identity; a value that is no legal text is left out. Nothing of the client changes.
    pub build_request-IsFor :
        refusal hop.current_method (url.as_str parsed_url) ≡ none
        → (request : Request x) × (build_request x hop parsed_url cookie initial context accept_ch
              referer c
            ≡ (ok request, c))
          × IsFor hop parsed_url cookie initial context accept_ch referer c request
    unfolding build_request
    build_request-IsFor e = (built, rw (build_request, e) refl, built-IsFor)
