-- ===== src/Request/Fetch.antt =====
-- Which fetch metadata, client hints and sensitivity marks leave with a request
-- (src/client/request.rs).
use mathlib.Core.Option
use mathlib.Core.Option.{some-injective}
use quik.Base.{
  String, Bool, true, false, Option, none, some, List, [], ◌∷◌, str_eq, eq_iff, arith, All,
  if◌then◌else◌, ◌≡◌, refl, ◌≢◌, ◌↔◌, ◌⊎◌, inl, inr, member, subst, ap, sym, ◌∙◌, Option-cases,
}
use quik.Http.{HttpLib, HttpLaws}
use quik.Profile.{ChromeProfile}
use quik.Request.{
  RequestContext, navigate, form, iframe, is_navigation, mark, inject_chrome_headers,
}
use quik.Request.Laws.{
  put, put_all, hint_writes, metadata_writes, preference_writes, written, get-inject_chrome_headers,
}

-- The names that are written.
abbrev pub written_names : List String
written_names =
    "sec-ch-ua" ∷ "sec-ch-ua-mobile" ∷ "sec-ch-ua-platform" ∷ "sec-ch-ua-platform-version"
    ∷ "upgrade-insecure-requests" ∷ "user-agent" ∷ "sec-fetch-site" ∷ "accept" ∷ "sec-fetch-mode"
    ∷ "sec-fetch-user" ∷ "sec-fetch-dest" ∷ "referer" ∷ "accept-encoding" ∷ "accept-language"
    ∷ "priority" ∷ []

-- A name that no write has keeps its value.
put_all_other {ℓ} :
    {V : Type ℓ} (writes : List (String × Option V)) (j : String) (old : Option V)
    → All (λ w. str_eq w.0 j ≡ false) writes
    → put_all writes j old ≡ old
unfolding put
put_all_other [] j old h = refl
put_all_other ((k, v) ∷ writes) j old (e, h) = rw e (put_all_other writes j old h)

names_differ :
    (j : String) (names : List String)
    → member j names ≡ false
    → All (λ k. str_eq k j ≡ false) names
unfolding member
names_differ j [] e = tt
names_differ j (k ∷ names) e = (ground arith, names_differ j names (ground arith))

is_navigation_iff :
    (c : RequestContext) → (is_navigation c ≡ true) ↔ ((c ≡ navigate) ⊎ (c ≡ form) ⊎ (c ≡ iframe))
unfolding is_navigation
is_navigation_iff navigate = ground arith
is_navigation_iff _ = ground arith

module _ (h : HttpLib) (l : HttpLaws h) where
  open h use {HeaderMap, HeaderValue, get, from_str, from_static, is_sensitive}

  abbrev pub IsPlain : Option HeaderValue → Type 0
  IsPlain o = (v : HeaderValue) → o ≡ some v → is_sensitive v ≡ false

  static-IsPlain : (s : String) → IsPlain (some (from_static s))
  static-IsPlain s v e = ground (arith, l.is_sensitive-from_static s)

  text-IsPlain : (s : String) → IsPlain (from_str s)
  text-IsPlain s v e = l.is_sensitive-from_str s v e

  referer-IsPlain : (r : Option String) → IsPlain (elim r [ none ↦ none | some s ↦ from_str s ])
  referer-IsPlain none v e = cc
  referer-IsPlain (some s) v e = text-IsPlain s v e

  if-IsPlain : (b : Bool) (o : Option HeaderValue) → IsPlain o → IsPlain (if b then o else none)
  if-IsPlain true o p v e = p v e
  if-IsPlain false o p v e = cc

  mark_iff :
      (j : String) (w : HeaderValue)
      → is_sensitive w ≡ false
      → (is_sensitive (mark h j w) ≡ true) ↔ ((j ≡ "cookie") ⊎ (j ≡ "authorization"))
  mark_iff j w e =
      ground
        (arith, eq_iff j "cookie", eq_iff j "authorization", l.is_sensitive-set_sensitive true w)

  put-IsPlain :
      (k j : String) (v old : Option HeaderValue)
      → IsPlain v
      → IsPlain old
      → IsPlain (put k v j old)
  unfolding put
  put-IsPlain k j v old p q w e = ground (arith, p w, q w)

  put_all-IsPlain :
      (writes : List (String × Option HeaderValue)) (j : String) (old : Option HeaderValue)
      → All (λ w. IsPlain w.1) writes
      → IsPlain old
      → IsPlain (put_all writes j old)
  put_all-IsPlain [] j old h k = k
  put_all-IsPlain ((i, v) ∷ writes) j old (p, h) k =
      put_all-IsPlain writes j _ h (put-IsPlain i j v old p k)

  module _ (m : HeaderMap) (p : ChromeProfile) (site : String) (initial : Bool) (c : RequestContext)
      (accept_ch : Bool) (referer : Option String) where
    abbrev sent : HeaderMap
    sent = inject_chrome_headers h m p site initial c accept_ch referer

    table :
        (j : String)
        → get sent j ≡ Option.map (mark h j) (written h l m p site initial c accept_ch referer j)
    table = get-inject_chrome_headers h l m p site initial c accept_ch referer

    -- If the map held no `sec-fetch-user` before, it holds one after exactly on the first hop of a
    -- navigation, a form submission or an iframe navigation.
    sec_fetch_user_iff :
        get m "sec-fetch-user" ≡ none
        → (get sent "sec-fetch-user" ≢ none)
          ↔ ((initial ≡ true) × ((c ≡ navigate) ⊎ (c ≡ form) ⊎ (c ≡ iframe)))
    unfolding put
    sec_fetch_user_iff e = rw (table "sec-fetch-user", e) (ground (arith, is_navigation_iff c))

    -- If the map held no platform version before, the profile's version is sent if the origin has
    -- asked for it by `Accept-CH` and the text is a legal value, and none otherwise.
    platform_version_lem :
        get m "sec-ch-ua-platform-version" ≡ none
        → get sent "sec-ch-ua-platform-version"
          ≡ (if accept_ch then from_str p.headers.sec_ch_ua_platform_version else none)
    unfolding put
    platform_version_lem e = rw (table "sec-ch-ua-platform-version", e) (ground arith)

    written-IsPlain :
        (j : String)
        → IsPlain (get m j)
        → IsPlain (written h l m p site initial c accept_ch referer j)
    written-IsPlain j k =
        put_all-IsPlain (preference_writes h p) j _
          (static-IsPlain _, (text-IsPlain _, (if-IsPlain _ _ (static-IsPlain _), tt)))
          (put_all-IsPlain (metadata_writes h p site initial c referer) j _
            (
              static-IsPlain _,
              (
                text-IsPlain _,
                (
                  text-IsPlain _,
                  (
                    static-IsPlain _,
                    (
                      static-IsPlain _,
                      (
                        if-IsPlain _ _ (static-IsPlain _),
                        (static-IsPlain _, (referer-IsPlain referer, tt)),
                      ),
                    ),
                  ),
                ),
              ),
            )
            (put_all-IsPlain (hint_writes h p accept_ch) j _
              (
                text-IsPlain _,
                (static-IsPlain _, (text-IsPlain _, (if-IsPlain accept_ch _ (text-IsPlain _), tt))),
              )
              k))

    -- If no value of the map was marked before, then after the injection exactly the values of
    -- `cookie` and `authorization` are marked as sensitive.
    pub is_sensitive_iff :
        ((j : String) → IsPlain (get m j))
        → (j : String) (v : HeaderValue) → get sent j ≡ some v
        → (is_sensitive v ≡ true) ↔ ((j ≡ "cookie") ⊎ (j ≡ "authorization"))
    is_sensitive_iff plain j v e =
        elim (Option-cases (written h l m p site initial c accept_ch referer j)) [
          | inl w ↦ absurd (absent w)
          | inr (w, found) ↦
              subst (λ x. (is_sensitive x ≡ true) ↔ ((j ≡ "cookie") ⊎ (j ≡ "authorization")))
                (value w found) (mark_iff j w (written-IsPlain j (plain j) w found))
        ]
      where
        absent : written h l m p site initial c accept_ch referer j ≡ none → ⊥
        absent w = cc (sym (table j) ∙ e, ap (Option.map (mark h j)) w)

        value :
            (w : HeaderValue)
            → written h l m p site initial c accept_ch referer j ≡ some w
            → mark h j w ≡ v
        value w found =
            some-injective _ _ (ap (Option.map (mark h j)) (sym found) ∙ sym (table j) ∙ e)

    -- A name outside the fifteen keeps its value, marked if it is `cookie` or `authorization`.
    pub other_names_kept :
        (j : String) → member j written_names ≡ false → get sent j ≡ Option.map (mark h j) (get m j)
    other_names_kept j e =
        let others = names_differ j written_names e in
        table j
        ∙ ap (Option.map (mark h j)) (
            put_all_other (preference_writes h p) j _ (assumption others)
            ∙ put_all_other (metadata_writes h p site initial c referer) j _ (assumption others)
            ∙ put_all_other (hint_writes h p accept_ch) j _ (assumption others))
