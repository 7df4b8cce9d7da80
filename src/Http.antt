-- ===== src/Http.antt =====
-- The crate `http` as the program uses it: header maps, header values and status codes.
-- `HttpLaws` is what its documentation says of them.
pub mod Sample
use mathlib.Core.Option
use quik.Base.{
  ℕ, ◌≤◌, String, ◌≡◌, Bool, true, false, Option, none, some, List, [], ◌∷◌, str_eq, if◌then◌else◌,
}

pub record HttpLib : Type 1 where
  pub HeaderMap : Type 0
  pub HeaderValue : Type 0
  -- `HeaderValue::from_str`, `from_static` and `to_str`
  pub from_str : String → Option HeaderValue
  pub from_static : String → HeaderValue
  pub to_str : HeaderValue → Option String
  -- `HeaderName::from_bytes`, `HeaderValue::from_bytes` and `StatusCode::from_u16`
  pub name_from_bytes : List ℕ → Option String
  pub value_from_bytes : List ℕ → Option HeaderValue
  pub from_u16 : ℕ → Option ℕ
  pub set_sensitive : Bool → HeaderValue → HeaderValue
  pub is_sensitive : HeaderValue → Bool
  -- `HeaderMap::new`, `get`, `get_all`, `insert` and `append`
  pub empty : HeaderMap
  pub get : HeaderMap → String → Option HeaderValue
  pub get_all : HeaderMap → String → List HeaderValue
  pub insert : HeaderMap → String → HeaderValue → HeaderMap
  pub append : HeaderMap → String → HeaderValue → HeaderMap
  -- a loop over `iter_mut` that writes each value
  pub update_each : (String → HeaderValue → HeaderValue) → HeaderMap → HeaderMap
  -- `StatusCode::is_redirection`, of the code as a number
  pub is_redirection : ℕ → Bool

pub record HttpLaws (h : HttpLib) : Type 0 where
  pub get-empty : (j : String) → h.get h.empty j ≡ none
  pub get-insert :
      (m : h.HeaderMap) (k : String) (v : h.HeaderValue) (j : String)
      → h.get (h.insert m k v) j ≡ (if str_eq k j then some v else h.get m j)
  pub get-update_each :
      (f : String → h.HeaderValue → h.HeaderValue) (m : h.HeaderMap) (j : String)
      → h.get (h.update_each f m) j ≡ Option.map (f j) (h.get m j)
  pub is_sensitive-set_sensitive :
      (b : Bool) (v : h.HeaderValue) → h.is_sensitive (h.set_sensitive b v) ≡ b
  pub is_sensitive-from_static : (s : String) → h.is_sensitive (h.from_static s) ≡ false
  -- a value starts out insensitive
  pub is_sensitive-from_str :
      (s : String) (v : h.HeaderValue) → h.from_str s ≡ some v → h.is_sensitive v ≡ false
