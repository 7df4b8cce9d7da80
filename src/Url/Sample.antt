-- ===== src/Url/Sample.antt =====
-- A concrete `url`: addresses that are already taken apart, with a table in place of the parser.
use quik.Base.{
  ℕ, ◌<◌, ◌%◌, String, Bool, true, ◌&&◌, ◌==◌, Option, none, some, List, [], ◌∷◌, str_eq, eq_refl,
  format, if◌then◌else◌, u16_to_string, ◌≡◌, arith, unwrap_or,
}
use quik.Effect.{Result, ok, err}
use quik.Url.{UrlLib, UrlLaws}

pub record Address : Type 0 where
  pub text : String
  pub protocol : String
  pub host : String
  pub is_domain : Bool
  pub port_written : Option ℕ

abbrev default_port : String → ℕ
default_port s = if str_eq s "http" then 80 else if str_eq s "https" then 443 else 0

abbrev shown_port : String → Option ℕ → Option ℕ
shown_port s none = none
shown_port s (some p) = if p == default_port s then none else some (p % 65536)

abbrev pub effective_port : Address → ℕ
effective_port a = unwrap_or a.port_written (default_port a.protocol)

abbrev serialize : Address → String
serialize a = elim (shown_port a.protocol a.port_written) [
  | none ↦ format (a.protocol ∷ "://" ∷ a.host ∷ [])
  | some p ↦ format (a.protocol ∷ "://" ∷ a.host ∷ ":" ∷ u16_to_string p ∷ [])
]

abbrev find : List Address → String → Result String Address
find [] s = err "relative URL without a base"
find (a ∷ known) s = if str_eq a.text s then ok a else find known s

abbrev same_origin : Address → Address → Bool
same_origin a b =
    str_eq a.protocol b.protocol && str_eq a.host b.host && effective_port a == effective_port b

-- `known` are the addresses that parse.
abbrev pub sample_url : List Address → UrlLib
sample_url known = record {
  Url = Address;
  Origin = Address;
  parse = find known;
  join = λ base s. find known s;
  as_str = λ a. a.text;
  scheme = λ a. a.protocol;
  host_str = λ a. some a.host;
  domain = λ a. if a.is_domain then some a.host else none;
  port = λ a. shown_port a.protocol a.port_written;
  origin = λ a. a;
  origin_eq = same_origin;
  ascii_serialization = serialize;
}

pub nat_eq_refl : (n : ℕ) → (n == n) ≡ true
nat_eq_refl n = ground arith

pub shown_port-u16 : (s : String) (o : Option ℕ) (p : ℕ) → shown_port s o ≡ some p → p < 65536
shown_port-u16 s none p e = absurd (cc)
shown_port-u16 s (some k) p e = ground arith

unfoldable pub sample_url_laws : (known : List Address) → UrlLaws (sample_url known)
sample_url_laws known = record {
  written = λ a. a.port_written;
  port_http = λ a e w. rw (w, e);
  port_https = λ a e w. rw (w, e);
  port_unwritten = λ a w. rw w;
  origin_eq_refl = λ a. rw (eq_refl a.protocol, eq_refl a.host) (nat_eq_refl (effective_port a));
  port_u16 = λ a. shown_port-u16 a.protocol a.port_written;
}
