-- ===== src/Request/Contexts.antt =====
-- What the Fetch standard asks of the requests that src/client/request.rs and src/client/pool.rs write:
-- their mode, destination, user activation and origin.
use quik.Base.{String, List, [], ◌∷◌, str_eq, ◌≡◌, refl}
use quik.Request.{
  RequestContext, navigate, form, iframe, xhr, worker, service_worker, no_cors_script,
  no_cors_style, no_cors_image, no_cors_font, no_cors_media, prefetch, fetch_metadata,
  is_navigation,
}

-- The methods whose requests carry a body.
abbrev pub body_methods : List String
body_methods = "POST" ∷ "PUT" ∷ "PATCH" ∷ []

-- Documents and frames are navigated to, scripts of a page ask by CORS, workers are of the page's own
-- origin, and what a page embeds or prefetches is asked for without CORS.
abbrev pub mode_of : RequestContext → String
mode_of navigate = "navigate"
mode_of form = "navigate"
mode_of iframe = "navigate"
mode_of xhr = "cors"
mode_of worker = "same-origin"
mode_of service_worker = "same-origin"
mode_of _ = "no-cors"

abbrev pub destination_of : RequestContext → String
destination_of navigate = "document"
destination_of form = "document"
destination_of iframe = "iframe"
destination_of no_cors_script = "script"
destination_of no_cors_style = "style"
destination_of no_cors_image = "image"
destination_of no_cors_font = "font"
destination_of no_cors_media = "video"
destination_of worker = "worker"
destination_of service_worker = "serviceworker"
destination_of xhr = "empty"
destination_of prefetch = "empty"

pub fetch_metadata-mode_of : (c : RequestContext) → (fetch_metadata c).0 ≡ mode_of c
unfolding fetch_metadata
fetch_metadata-mode_of navigate = refl
fetch_metadata-mode_of _ = refl

pub fetch_metadata-destination_of : (c : RequestContext) → (fetch_metadata c).1 ≡ destination_of c
unfolding fetch_metadata
fetch_metadata-destination_of navigate = refl
fetch_metadata-destination_of _ = refl

pub is_navigation-mode_of : (c : RequestContext) → is_navigation c ≡ str_eq (mode_of c) "navigate"
unfolding is_navigation
is_navigation-mode_of navigate = refl
is_navigation-mode_of _ = refl
