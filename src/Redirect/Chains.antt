-- ===== src/Redirect/Chains.antt =====
-- Chains of redirects: the hops that `execute_with_redirects` of src/client/pool.rs can come to.
use quik.Base.{
  ℕ, zero, suc, String, true, Option, none, some, List, arith, unwrap_or, ◌≡◌, refl, ◌⊎◌, inl, inr,
  Bool-cases, Option-cases,
}
use quik.Effect.{ok, Result-cases}
use quik.Http.{HttpLib}
use quik.Url.{UrlLib}
use quik.Redirect.{Hop, first_hop, next_site, next_hop, redirect}
use quik.Redirect.Policy.{IsConsistent, first_hop-IsConsistent, next_hop-IsConsistent}

module _ (u : UrlLib) (h : HttpLib) where
  open u use {Url, parse, join}
  open h use {HeaderMap, get, to_str, is_redirection}

  -- Where a redirect comes from: the status is a redirection, the answer has a location, and the
  -- location joins to the next URL.
  pub redirect_inv :
      (hop next : Hop) (parsed : Url) (status : ℕ) (headers : HeaderMap)
      → redirect u h hop parsed status headers ≡ ok (some next)
      → (target : Url) × (next ≡ next_hop u hop parsed target status)
        × (is_redirection status ≡ true)
  unfolding redirect
  redirect_inv hop next parsed status headers e = elim (Bool-cases (is_redirection status)) [
    | inr no_redirect ↦ absurd (cc (rw (no_redirect, redirect) at e))
    | inl yes_redirect ↦ elim (Option-cases (get headers "location")) [
      | inl absent ↦ absurd (cc (rw (yes_redirect, absent, redirect) at e))
      | inr (location, found) ↦ elim (Result-cases (join parsed (unwrap_or (to_str location) ""))) [
        | inl (m, refused) ↦ absurd (cc (rw (yes_redirect, found, refused, redirect) at e))
        | inr (target, joined) ↦
            (target, cc (rw (yes_redirect, found, joined, redirect) at e), yes_redirect)
      ]
    ]
  ]

  -- `Follows start n hop`: after `n` redirects the chain that begins at `start` stands at `hop`.
  pub data Follows (start : Hop) : ℕ → Hop → Type 0 where
    here : Follows start zero start
    step :
        {n : ℕ} {a b : Hop} (parsed : Url) (status : ℕ) (headers : HeaderMap)
        → Follows start n a
        → parse a.current_url ≡ ok parsed
        → redirect u h a parsed status headers ≡ ok (some b)
        → Follows start (suc n) b

  Follows-keeps {ℓ} :
      (P : Hop → Type ℓ) {start hop : Hop} {n : ℕ}
      → ((a : Hop) (parsed next : Url) (status : ℕ) → P a → P (next_hop u a parsed next status))
      → P start
      → Follows start n hop
      → P hop
  Follows-keeps P keep p here = p
  Follows-keeps P keep p (step {a = a} {b = b} parsed status headers f _ e) =
      let (target, same, _) = redirect_inv a b parsed status headers e in
      rw same (keep a parsed target status (Follows-keeps P keep p f))

  -- However many redirects a call has followed, the site header is one of the four values, it says
  -- `cross-site` exactly when the flag is set, and `none` exactly on the first hop.
  pub Follows-IsConsistent :
      (m url : String) (b : Option (List ℕ)) (n : ℕ) (hop : Hop)
      → Follows (first_hop m url b) n hop
      → IsConsistent hop
  Follows-IsConsistent m url b n hop =
      Follows-keeps IsConsistent (next_hop-IsConsistent u) (first_hop-IsConsistent m url b)

  -- A chain that is cross-site stays so however many redirects follow, and its site header stays the
  -- one it was.
  pub Follows-cross_site :
      (start hop : Hop) (n : ℕ)
      → Follows start n hop
      → start.is_cross_site ≡ true
      → (hop.is_cross_site ≡ true) × (hop.sec_fetch_site ≡ start.sec_fetch_site)
  unfolding next_hop next_site
  Follows-cross_site start hop n f e =
      Follows-keeps (λ x. (x.is_cross_site ≡ true) × (x.sec_fetch_site ≡ start.sec_fetch_site))
        (λ a parsed next status p. ground arith) (e, refl) f

  -- A hop either still has the method and the body of the call, or has been rotated to a GET with no
  -- body.
  pub Follows-method :
      (m url : String) (b : Option (List ℕ)) (n : ℕ) (hop : Hop)
      → Follows (first_hop m url b) n hop
      → ((hop.current_method ≡ m) × (hop.current_body ≡ b))
        ⊎ ((hop.current_method ≡ "GET") × (hop.current_body ≡ none))
  unfolding first_hop next_hop
  Follows-method m url b n hop =
      Follows-keeps
        (λ x.
          ((x.current_method ≡ m) × (x.current_body ≡ b))
          ⊎ ((x.current_method ≡ "GET") × (x.current_body ≡ none)))
        (λ a parsed next status p. ground arith) (ground arith)
