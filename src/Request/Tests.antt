-- ===== src/Request/Tests.antt =====
-- The header injection on the sample header map: the first navigation of Chrome 134 on Windows.
use quik.Base.{
  String, true, false, none, [], ◌∷◌, ◌≡◌, refl, ap, sym, Bool-cases, ◌⊎◌, ◌↔◌, inl, inr, lookup,
  insert, str_eq,
}
use mathlib.Core.Option
use mathlib.Core.Option.{some-injective}
use quik.Http.Sample.{sample_http, sample_laws}
use quik.Profile.{ChromeProfile}
use quik.Profile.Chrome134.{chrome_134_windows_x64}
use quik.Request.{
  navigate, mark, inject_chrome_headers, mark_sensitive, insert_preferences, insert_text,
  insert_metadata, insert_hints, fetch_metadata, is_navigation,
}
use quik.Profile.Draw.{Draw}
use quik.Request.Units.{
  test_inject_chrome_headers_context_mapping, test_inject_sensitive_headers_marked_properly,
}
use quik.Request.Laws.{written, get-inject_chrome_headers}
use quik.Request.Fetch.{is_sensitive_iff, IsPlain}

abbrev windows : ChromeProfile
windows = chrome_134_windows_x64 (record { brand = 1; version = 0; position = 2 })

abbrev with_cookie : sample_http.HeaderMap
with_cookie = ("cookie", record { text = "a=1"; sensitive = false }) ∷ []

abbrev navigated : sample_http.HeaderMap
navigated = inject_chrome_headers sample_http with_cookie windows "none" true navigate true none

with_cookie-IsPlain : (j : String) → IsPlain sample_http sample_laws (lookup j with_cookie)
unfolding lookup
with_cookie-IsPlain j v e = elim (Bool-cases (str_eq "cookie" j)) [
  | inl same ↦ ap (λ w. w.sensitive) (sym (some-injective _ _ (rw same at e)))
  | inr other ↦ absurd (cc (rw other at e))
]

get-inject_chrome_headers_example :
    sample_http.get navigated "cookie"
    ≡ Option.map (mark sample_http "cookie") (
        written sample_http sample_laws with_cookie windows "none" true navigate true none "cookie")
get-inject_chrome_headers_example =
    get-inject_chrome_headers sample_http sample_laws with_cookie windows "none" true navigate true
      none "cookie"

abbrev name : String
name = "cookie"

is_sensitive_iff_example : (true ≡ true) ↔ ((name ≡ "cookie") ⊎ (name ≡ "authorization"))
unfolding lookup insert chrome_134_windows_x64 inject_chrome_headers mark_sensitive
    insert_preferences insert_text insert_metadata insert_hints
is_sensitive_iff_example =
    is_sensitive_iff sample_http sample_laws with_cookie windows "none" true navigate true none
      with_cookie-IsPlain name (record { text = "a=1"; sensitive = true }) refl

-- The unit tests pass, whatever is drawn.
context_mapping_passes :
    (d : Draw) → test_inject_chrome_headers_context_mapping sample_http d ≡ true
unfolding test_inject_chrome_headers_context_mapping inject_chrome_headers mark_sensitive
    insert_preferences insert_text insert_metadata insert_hints lookup insert chrome_134_windows_x64
    fetch_metadata is_navigation
context_mapping_passes d = refl

sensitive_marked_passes :
    (d : Draw) → test_inject_sensitive_headers_marked_properly sample_http d ≡ true
unfolding test_inject_sensitive_headers_marked_properly inject_chrome_headers mark_sensitive
    insert_preferences insert_text insert_metadata insert_hints lookup insert chrome_134_windows_x64
    fetch_metadata is_navigation
sensitive_marked_passes d = refl
