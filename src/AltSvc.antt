-- ===== src/AltSvc.antt =====
-- src/client/pool.rs: `AltSvcCache`, and `store_alt_svc`, which fills it from a response.
pub mod Laws
pub mod Tests
use mathlib.Core.Option
use quik.Base.{
  ℕ, String, Bool, Option, none, some, List, [], ◌∷◌, contains, if◌then◌else◌, unwrap_or, lookup,
}
use quik.Base
use quik.Http.{HttpLib}
use quik.Url.{UrlLib}
use quik.Lock
use quik.Lock.{Lock}
use quik.Keys.{origin_key}

-- Origins and what they advertised.
abbrev pub AltSvcCache : Type 0
AltSvcCache = Lock (List (String × String))

unfoldable pub empty : AltSvcCache
empty = Lock.fresh []

unfoldable pub get : AltSvcCache → String → Option String
get cache origin = elim (Lock.read cache) [ none ↦ none | some entries ↦ lookup origin entries ]

unfoldable pub insert : AltSvcCache → String → String → AltSvcCache
insert cache origin alt_svc = Lock.write (Base.insert origin alt_svc) cache

unfoldable pub remove : AltSvcCache → String → AltSvcCache
remove cache origin = Lock.write (Base.remove origin) cache

module _ (u : UrlLib) (h : HttpLib) where
  -- The key that an advertisement is stored under.
  unfoldable pub advertised_key : u.Url → String
  advertised_key url = origin_key (unwrap_or (u.host_str url) "") (unwrap_or (u.port url) 443)

  unfoldable pub store_alt_svc : AltSvcCache → h.HeaderMap → u.Url → AltSvcCache
  store_alt_svc cache headers url = elim (h.get headers "alt-svc") [
    | none ↦ cache
    | some alt_svc ↦ elim (h.to_str alt_svc) [
      | none ↦ cache
      | some alt_str ↦
          if contains alt_str "h3" then insert cache (advertised_key url) alt_str else cache
    ]
  ]
