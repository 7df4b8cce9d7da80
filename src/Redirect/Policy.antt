-- ===== src/Redirect/Policy.antt =====
-- What one redirect of src/client/pool.rs does to the method, the body, the site and the referer.
use quik.Base.{
  ℕ, String, Bool, true, false, not, ◌||◌, Option, none, some, List, [], ◌∷◌, eq_iff, eq_refl,
  subst, arith, format, if◌then◌else◌, ◌≡◌, refl, ◌≢◌, ◌⊎◌, inl, inr, ◌↔◌, Bool-cases,
}
use quik.Effect.{ok}
use quik.Url.{UrlLib}
use quik.Redirect.{Hop, first_hop, referer_to_send, same_domain, next_site, next_hop}

-- The flag and the header agree, and a first hop is told by `none`.
pub record IsConsistent (hop : Hop) : Type 0 where
  pub crossed : (hop.is_cross_site ≡ true) ↔ (hop.sec_fetch_site ≡ "cross-site")
  pub initial : (hop.sec_fetch_site ≡ "none") ↔ (hop.previous_url ≡ none)
  pub known :
      (hop.sec_fetch_site ≡ "none")
      ⊎ (hop.sec_fetch_site ≡ "same-origin")
      ⊎ (hop.sec_fetch_site ≡ "same-site")
      ⊎ (hop.sec_fetch_site ≡ "cross-site")

texts_differ :
    (◌≢◌ {A = String} "none" "same-origin")
    × (◌≢◌ {A = String} "none" "same-site")
    × (◌≢◌ {A = String} "none" "cross-site")
    × (◌≢◌ {A = String} "same-origin" "cross-site")
    × (◌≢◌ {A = String} "same-site" "cross-site")
texts_differ = (
  ground (arith, eq_iff "none" "same-origin"),
  ground (arith, eq_iff "none" "same-site"),
  ground (arith, eq_iff "none" "cross-site"),
  ground (arith, eq_iff "same-origin" "cross-site"),
  ground (arith, eq_iff "same-site" "cross-site"),
)

pub first_hop-IsConsistent :
    (m url : String) (b : Option (List ℕ)) → IsConsistent (first_hop m url b)
unfolding first_hop
first_hop-IsConsistent m url b = let differ = texts_differ in ground arith

same_domain_self : (u : UrlLib) (a : Option String) → same_domain u a a ≡ true
unfolding same_domain
same_domain_self u none = refl
same_domain_self u (some a) = eq_refl a

module _ (u : UrlLib) where
  open u use {Url, parse, domain, origin, origin_eq, ascii_serialization}

  -- A redirect keeps the site flag and the site header of a hop in agreement.
  pub next_hop-IsConsistent :
      (hop : Hop) (parsed next : Url) (status : ℕ)
      → IsConsistent hop
      → IsConsistent (next_hop u hop parsed next status)
  unfolding next_hop next_site
  next_hop-IsConsistent hop parsed next status c =
      let differ = texts_differ in
      elim (Bool-cases hop.is_cross_site) [
        | inl x ↦ ground (arith, c.crossed, c.initial, c.known)
        | inr x ↦ ground (arith, c.crossed, c.initial, c.known)
      ]

  -- The chain has met another site, or meets it by this redirect.
  abbrev pub crosses : Hop → Url → Url → Bool
  crosses hop parsed next =
      hop.is_cross_site
      || not
          (origin_eq (origin next) (origin parsed) || same_domain u (domain next) (domain parsed))

  -- After a redirect from a URL that parses, the next request names as its referer the origin and a
  -- slash if this or an earlier redirect of the chain went to another site, and otherwise the whole
  -- text of the URL that it came from.
  pub referer_to_send-next_hop :
      (hop : Hop) (parsed next : Url) (status : ℕ)
      → parse hop.current_url ≡ ok parsed
      → referer_to_send u (next_hop u hop parsed next status)
        ≡ some (
            if crosses hop parsed next
            then format (ascii_serialization (origin parsed) ∷ "/" ∷ [])
            else hop.current_url)
  unfolding next_hop next_site referer_to_send
  referer_to_send-next_hop hop parsed next status e = ground arith

  -- A redirect that keeps the domain and changes the origin (another scheme or port) is no crossing,
  -- and neither is one between two hosts that have no domain: the referer is the whole text of
  -- the URL that the chain came from, path and query included.
  pub referer_to_send-same_domain :
      (hop : Hop) (parsed next : Url) (status : ℕ)
      → hop.is_cross_site ≡ false
      → origin_eq (origin next) (origin parsed) ≡ false
      → domain next ≡ domain parsed
      → (referer_to_send u (next_hop u hop parsed next status) ≡ some hop.current_url)
        × ((next_hop u hop parsed next status).sec_fetch_site ≡ "same-site")
  unfolding next_hop next_site referer_to_send
  referer_to_send-same_domain hop parsed next status x o d =
      let same : same_domain u (domain next) (domain parsed) ≡ true =
        subst (λ x. same_domain u (domain next) x ≡ true) d (same_domain_self u (domain next)) in
      ground arith
