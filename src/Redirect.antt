-- ===== src/Redirect.antt =====
-- src/client/pool.rs, the redirect engine of `execute_with_redirects`: what one hop keeps for the
-- next one, and how a redirect answer makes the next hop. A method and a URL are texts, a body is a
-- list of bytes.
pub mod Policy
pub mod Chains
pub mod Tests
use quik.Base.{
  ℕ, String, Bool, true, false, ◌||◌, ◌==◌, Option, none, some, List, [], ◌∷◌, str_eq, format,
  if◌then◌else◌, unwrap_or,
}
use quik.Effect.{Result, ok, err}
use quik.Http.{HttpLib}
use quik.Url.{UrlLib}

pub record Hop : Type 0 where
  pub current_url : String
  pub current_method : String
  pub current_body : Option (List ℕ)
  pub previous_url : Option String
  pub sec_fetch_site : String
  pub is_cross_site : Bool

unfoldable pub first_hop : String → String → Option (List ℕ) → Hop
first_hop initial_method initial_url initial_body = record {
  current_url = initial_url;
  current_method = initial_method;
  current_body = initial_body;
  previous_url = none;
  sec_fetch_site = "none";
  is_cross_site = false;
}

-- 301, 302 and 303 rotate the method to GET.
unfoldable pub rotates : ℕ → Bool
rotates status = status == 301 || status == 302 || status == 303

module _ (u : UrlLib) where
  open u use {Url, parse, join, as_str, domain, origin, origin_eq, ascii_serialization}

  -- `prev.origin() + "/"` after a cross-site hop, where the text parses, and else the text.
  unfoldable pub referer_to_send : Hop → Option String
  referer_to_send hop = elim hop.previous_url [
    | none ↦ none
    | some prev ↦
        if hop.is_cross_site
        then elim (parse prev) [
          | ok prev_url ↦ some (format (ascii_serialization (origin prev_url) ∷ "/" ∷ []))
          | err _ ↦ some prev
        ]
        else some prev
  ]

  -- `==` on `Option<&str>`.
  unfoldable pub same_domain : Option String → Option String → Bool
  same_domain none none = true
  same_domain (some a) (some b) = str_eq a b
  same_domain _ _ = false

  -- The new `sec_fetch_site` and `is_cross_site`.
  unfoldable pub next_site : Hop → Url → Url → String × Bool
  unfolding same_domain
  next_site hop parsed_url next_url =
      if hop.is_cross_site
      then (hop.sec_fetch_site, hop.is_cross_site)
      else if origin_eq (origin next_url) (origin parsed_url)
      then ("same-origin", hop.is_cross_site)
      else if same_domain (domain next_url) (domain parsed_url)
      then ("same-site", hop.is_cross_site)
      else ("cross-site", true)

  unfoldable pub next_hop : Hop → Url → Url → ℕ → Hop
  unfolding rotates next_site
  next_hop hop parsed_url next_url status = record {
    current_url = as_str next_url;
    current_method = if rotates status then "GET" else hop.current_method;
    current_body = if rotates status then none else hop.current_body;
    previous_url = some hop.current_url;
    sec_fetch_site = (next_site hop parsed_url next_url).0;
    is_cross_site = (next_site hop parsed_url next_url).1;
  }

  module _ (h : HttpLib) where
    open h use {HeaderMap, HeaderValue, get, to_str, is_redirection}

    -- Lines 467 to 499: the next hop, `none` if the answer is to be returned, and the message of
    -- the refusal if the location does not join to a URL.
    unfoldable pub redirect : Hop → Url → ℕ → HeaderMap → Result String (Option Hop)
    redirect hop parsed_url status headers =
        if is_redirection status
        then elim (get headers "location") [
          | none ↦ ok none
          | some location ↦ elim (join parsed_url (unwrap_or (to_str location) "")) [
            | err e ↦ err e
            | ok next_url ↦ ok (some (next_hop hop parsed_url next_url status))
          ]
        ]
        else ok none
