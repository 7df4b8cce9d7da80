-- ===== src/AltSvc/Laws.antt =====
-- What the Alt-Svc cache of src/client/pool.rs remembers, and for whom.
use quik.Base.{
  String, true, false, none, some, str_eq, eq_iff, eq_refl, contains, arith, if◌then◌else◌,
  lookup-insert, lookup-remove, ◌≡◌, ◌≢◌, ◌⊎◌, Bool-cases, inl, inr,
}
use quik.Http.{HttpLib}
use quik.Url.{UrlLib}
use quik.Keys.{origin_key, request_port}
use quik.Keys.Injective.{origin_key-injective}
use quik.AltSvc.{AltSvcCache, get, insert, remove, advertised_key, store_alt_svc}

-- After an eviction the origin has no entry, and every other origin has the one it had, also where
-- the lock is poisoned.
pub get-remove :
    (cache : AltSvcCache) (k j : String)
    → get (remove cache k) j ≡ (if str_eq k j then none else get cache j)
unfolding get remove
get-remove cache k j = elim (Bool-cases cache.is_poisoned) [
  | inl e ↦ ground arith
  | inr e ↦ ground (arith, lookup-remove k j cache.value)
]

-- After an insertion the origin has the new entry unless the lock is poisoned, and every other
-- origin the one it had.
pub get-insert :
    (cache : AltSvcCache) (k j v : String)
    → get (insert cache k v) j
      ≡ (if cache.is_poisoned then none else if str_eq k j then some v else get cache j)
unfolding get insert
get-insert cache k j v = elim (Bool-cases cache.is_poisoned) [
  | inl e ↦ ground arith
  | inr e ↦ ground (arith, lookup-insert k j v cache.value)
]

module _ (u : UrlLib) (h : HttpLib) where
  open u use {Url, scheme, host_str, port}

  store_alt_svc_stores :
      (cache : AltSvcCache) (headers : h.HeaderMap) (url : Url) (alt : String) (v : h.HeaderValue)
      → h.get headers "alt-svc" ≡ some v
      → h.to_str v ≡ some alt
      → contains alt "h3" ≡ true
      → store_alt_svc u h cache headers url ≡ insert cache (advertised_key u h url) alt
  unfolding store_alt_svc
  store_alt_svc_stores cache headers url alt v found text h3 = rw (found, text, h3, store_alt_svc)

  -- An advertisement is found again by the next request to the same URL, if the scheme is not `http`
  -- or the URL has a port that is not the default.
  pub get-store_alt_svc :
      (cache : AltSvcCache) (headers : h.HeaderMap) (url : Url) (host alt : String)
      (v : h.HeaderValue)
      → cache.is_poisoned ≡ false
      → host_str url ≡ some host
      → h.get headers "alt-svc" ≡ some v
      → h.to_str v ≡ some alt
      → contains alt "h3" ≡ true
      → (scheme url ≢ "http") ⊎ (port url ≢ none)
      → get (store_alt_svc u h cache headers url) (origin_key host (request_port u url)) ≡ some alt
  unfolding request_port advertised_key
  get-store_alt_svc cache headers url host alt v free e found text h3 q =
      rw (store_alt_svc_stores cache headers url alt v found text h3) (
        rw (get-insert cache, free)
          (ground
            (arith, eq_iff (scheme url) "http", eq_refl (origin_key host (request_port u url)))))

  -- Where the scheme is `http` and the port is the default, an advertisement goes to the entry of
  -- the origin's port 443: the next request to the same URL, which asks for port 80, finds what it
  -- found before, and one to port 443 of that host finds the advertisement.
  pub get-store_alt_svc_http :
      (cache : AltSvcCache) (headers : h.HeaderMap) (url : Url) (host alt : String)
      (v : h.HeaderValue)
      → cache.is_poisoned ≡ false
      → host_str url ≡ some host
      → h.get headers "alt-svc" ≡ some v
      → h.to_str v ≡ some alt
      → contains alt "h3" ≡ true
      → scheme url ≡ "http"
      → port url ≡ none
      → (get (store_alt_svc u h cache headers url) (origin_key host (request_port u url))
          ≡ get cache (origin_key host (request_port u url)))
        × (get (store_alt_svc u h cache headers url) (origin_key host 443) ≡ some alt)
  unfolding request_port advertised_key
  get-store_alt_svc_http cache headers url host alt v free e found text h3 s q =
      rw (store_alt_svc_stores cache headers url alt v found text h3) (
        ground (
          arith,
          eq_iff (scheme url) "http",
          eq_refl (origin_key host 443),
          eq_iff (origin_key host 443) (origin_key host 80),
          origin_key-injective host host 443 80 (omega arith) (omega arith),
          get-insert cache (origin_key host 443) (origin_key host 443) alt,
          get-insert cache (origin_key host 443) (origin_key host 80) alt,
        ))
