-- ===== src/Url.antt =====
-- The crate `url` as the program uses it. `UrlLaws` is what its documentation says of ports.
pub mod Sample
use quik.Base.{ℕ, String, Bool, true, Option, none, some, ◌≡◌, ◌↔◌, ◌≢◌, ◌<◌}
use quik.Effect.{Result, ok}

pub record UrlLib : Type 1 where
  pub Url : Type 0
  pub Origin : Type 0
  -- `Url::parse` and `Url::join`; a refusal is its message
  pub parse : String → Result String Url
  pub join : Url → String → Result String Url
  -- `Url::as_str` and `to_string`
  pub as_str : Url → String
  pub scheme : Url → String
  pub host_str : Url → Option String
  pub domain : Url → Option String
  pub port : Url → Option ℕ
  pub origin : Url → Origin
  pub origin_eq : Origin → Origin → Bool
  pub ascii_serialization : Origin → String

-- "If the port number is the default for the scheme, `port` answers none", also where it is written
-- out. `written` is the port that stands in the text, if any.
pub record UrlLaws (u : UrlLib) : Type 0 where
  pub written : u.Url → Option ℕ
  pub port_http : (x : u.Url) → u.scheme x ≡ "http" → written x ≡ some 80 → u.port x ≡ none
  pub port_https : (x : u.Url) → u.scheme x ≡ "https" → written x ≡ some 443 → u.port x ≡ none
  pub port_unwritten : (x : u.Url) → written x ≡ none → u.port x ≡ none
  pub origin_eq_refl : (x : u.Url) → u.origin_eq (u.origin x) (u.origin x) ≡ true
  -- a port is a u16
  pub port_u16 : (x : u.Url) (p : ℕ) → u.port x ≡ some p → p < 65536
