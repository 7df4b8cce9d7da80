-- ===== src/Http/Sample.antt =====
-- A concrete header map: an association list of texts with a sensitivity mark. It shows that the
-- laws can hold, and runs the examples.
use mathlib.Core.Option
use quik.Base.{
  begins_with, codes, none, String, ◌≡◌, refl, Bool, false, ◌&&◌, some, List, [], ◌∷◌, ◌++◌, str_eq,
  leb, arith, eq_iff, if◌then◌else◌, lookup, insert, lookup-insert,
}
use quik.Http.{HttpLib, HttpLaws}

pub record Value : Type 0 where
  pub text : String
  pub sensitive : Bool

abbrev Headers : Type 0
Headers = List (String × Value)

abbrev all_of : Headers → String → List Value
all_of [] k = []
all_of ((j, v) ∷ m) k = if str_eq j k then v ∷ all_of m k else all_of m k

abbrev each : (String → Value → Value) → Headers → Headers
each f [] = []
each f ((j, v) ∷ m) = (j, f j v) ∷ each f m

lookup-each :
    (f : String → Value → Value) (m : Headers) (j : String)
    → lookup j (each f m) ≡ Option.map (f j) (lookup j m)
unfolding lookup
lookup-each f [] j = refl
lookup-each f ((k, v) ∷ m) j = ground (arith, eq_iff k j, lookup-each f m j)

abbrev pub sample_http : HttpLib
sample_http = record {
  HeaderMap = Headers;
  HeaderValue = Value;
  from_str = λ s. some (record { text = s; sensitive = false });
  from_static = λ s. record { text = s; sensitive = false };
  to_str = λ v. some v.text;
  name_from_bytes = λ b. if begins_with b (codes "server") then some "server" else none;
  value_from_bytes = λ b. some (record { text = ""; sensitive = false });
  from_u16 = λ code. if leb 100 code && leb code 999 then some code else none;
  set_sensitive = λ b v. record v { sensitive = b };
  is_sensitive = λ v. v.sensitive;
  empty = [];
  get = λ m k. lookup k m;
  get_all = all_of;
  insert = λ m k v. insert k v m;
  append = λ m k v. m ++ (k, v) ∷ [];
  update_each = each;
  is_redirection = λ code. leb 300 code && leb code 399;
}

pub sample_laws : HttpLaws sample_http
unfolding lookup
sample_laws = record {
  get-empty = λ j. refl;
  get-insert = λ m k v j. lookup-insert k j v m;
  get-update_each = lookup-each;
  is_sensitive-set_sensitive = λ b v. refl;
  is_sensitive-from_static = λ s. refl;
  is_sensitive-from_str = λ s v e. cc;
}
