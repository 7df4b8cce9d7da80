-- ===== src/Request/Laws.antt =====
-- What the headers written by src/client/request.rs are, name by name.
use mathlib.Core.Option
use quik.Base.{
  String, Bool, true, false, ◌&&◌, Option, none, some, List, [], ◌∷◌, str_eq, arith, if◌then◌else◌,
  ◌≡◌, sym, inl, inr, Bool-cases, Option-cases,
}
use quik.Http.{HttpLib, HttpLaws}
use quik.Profile.{ChromeProfile}
use quik.Request.{
  RequestContext, fetch_metadata, is_navigation, insert_text, insert_hints, insert_metadata,
  insert_preferences, mark, mark_sensitive, inject_chrome_headers,
}

abbrev pub or_else {ℓ} : {A : Type ℓ} → Option A → Option A → Option A
or_else none b = b
or_else (some a) b = some a

-- A write of `v` under the name `k`, seen at the name `j`; no value, no write.
unfoldable pub put {ℓ} : {V : Type ℓ} → String → Option V → String → Option V → Option V
put k v j old = or_else (if str_eq k j then v else none) old

pub put-none {ℓ} : {V : Type ℓ} (k j : String) (old : Option V) → put k none j old ≡ old
unfolding put
put-none k j old = ground arith

-- The writes in turn.
abbrev pub put_all {ℓ} : {V : Type ℓ} → List (String × Option V) → String → Option V → Option V
put_all [] j old = old
put_all ((k, v) ∷ writes) j old = put_all writes j (put k v j old)

module _ (h : HttpLib) where
  open h use {HeaderValue, from_str, from_static}

  abbrev pub hint_writes : ChromeProfile → Bool → List (String × Option HeaderValue)
  hint_writes p accept_ch =
      ("sec-ch-ua", from_str p.headers.sec_ch_ua)
      ∷ ("sec-ch-ua-mobile", some (from_static "?0"))
      ∷ ("sec-ch-ua-platform", from_str p.headers.sec_ch_ua_platform)
      ∷ (
        "sec-ch-ua-platform-version",
        (if accept_ch then from_str p.headers.sec_ch_ua_platform_version else none),
      )
      ∷ []

  abbrev pub metadata_writes :
      ChromeProfile
      → String
      → Bool
      → RequestContext
      → Option String
      → List (String × Option HeaderValue)
  metadata_writes p site initial c referer =
      ("upgrade-insecure-requests", some (from_static "1"))
      ∷ ("user-agent", from_str p.headers.user_agent)
      ∷ ("sec-fetch-site", from_str site)
      ∷ ("accept", some (from_static (fetch_metadata c).2))
      ∷ ("sec-fetch-mode", some (from_static (fetch_metadata c).0))
      ∷ ("sec-fetch-user", (if initial && is_navigation c then some (from_static "?1") else none))
      ∷ ("sec-fetch-dest", some (from_static (fetch_metadata c).1))
      ∷ ("referer", elim referer [ none ↦ none | some r ↦ from_str r ])
      ∷ []

  abbrev pub preference_writes : ChromeProfile → List (String × Option HeaderValue)
  preference_writes p =
      (
        "accept-encoding",
        some (
            from_static
              (if p.headers.zstd_encoding then "gzip, deflate, br, zstd" else "gzip, deflate, br")),
      )
      ∷ ("accept-language", from_str p.headers.accept_language)
      ∷ (
        "priority",
        (if p.headers.include_priority_header then some (from_static "u=0, i") else none),
      )
      ∷ []

  module _ (l : HttpLaws h) where
    open h use {HeaderMap, get}

    get-insert_put :
        (m : HeaderMap) (k : String) (v : HeaderValue) (j : String)
        → get (h.insert m k v) j ≡ put k (some v) j (get m j)
    unfolding put
    get-insert_put m k v j = ground (arith, l.get-insert m k v j)

    pub get-insert_text :
        (m : HeaderMap) (k text j : String)
        → get (insert_text h m k text) j ≡ put k (from_str text) j (get m j)
    get-insert_text m k text j = elim (Option-cases (from_str text)) [
      | inl e ↦ unfold insert_text in rw (e, insert_text) (sym (put-none k j (get m j)))
      | inr (v, e) ↦ unfold insert_text in rw (e, insert_text) (get-insert_put m k v j)
    ]

    get-insert_hints :
        (m : HeaderMap) (p : ChromeProfile) (accept_ch : Bool) (j : String)
        → get (insert_hints h m p accept_ch) j ≡ put_all (hint_writes p accept_ch) j (get m j)
    unfolding insert_hints
    get-insert_hints m p true j = simp (get-insert_text, get-insert_put)
    get-insert_hints m p false j = simp (get-insert_text, get-insert_put, put-none)

    get-insert_metadata :
        (m : HeaderMap) (p : ChromeProfile) (site : String) (initial : Bool) (c : RequestContext)
        (referer : Option String) (j : String)
        → get (insert_metadata h m p site initial c referer) j
          ≡ put_all (metadata_writes p site initial c referer) j (get m j)
    unfolding insert_metadata
    get-insert_metadata m p site initial c none j = elim (Bool-cases (initial && is_navigation c)) [
      | inl e ↦ rw e (simp (get-insert_text, get-insert_put, put-none))
      | inr e ↦ rw e (simp (get-insert_text, get-insert_put, put-none))
    ]
    get-insert_metadata m p site initial c (some r) j =
        elim (Bool-cases (initial && is_navigation c)) [
          | inl e ↦ rw e (simp (get-insert_text, get-insert_put))
          | inr e ↦ rw e (simp (get-insert_text, get-insert_put, put-none))
        ]

    get-insert_preferences :
        (m : HeaderMap) (p : ChromeProfile) (j : String)
        → get (insert_preferences h m p) j ≡ put_all (preference_writes p) j (get m j)
    unfolding insert_preferences
    get-insert_preferences m p j = elim (Bool-cases p.headers.include_priority_header) [
      | inl e ↦ rw e (simp (get-insert_text, get-insert_put))
      | inr e ↦ rw e (simp (get-insert_text, get-insert_put, put-none))
    ]

    module _ (m : HeaderMap) (p : ChromeProfile) (site : String) (initial : Bool)
        (c : RequestContext) (accept_ch : Bool) (referer : Option String) where
      abbrev pub sent : HeaderMap
      sent = inject_chrome_headers h m p site initial c accept_ch referer

      abbrev pub written : String → Option HeaderValue
      written j = put_all (preference_writes p) j (
          put_all (metadata_writes p site initial c referer) j
            (put_all (hint_writes p accept_ch) j (get m j)))

      -- Under every name the outgoing map holds what the last of the writes in the three tables
      -- with that name put there, and else what was there before, marked for HPACK.
      pub get-inject_chrome_headers : (j : String) → get sent j ≡ Option.map (mark h j) (written j)
      unfolding inject_chrome_headers mark_sensitive
      get-inject_chrome_headers j =
          rw (l.get-update_each, get-insert_preferences, get-insert_metadata, get-insert_hints)
