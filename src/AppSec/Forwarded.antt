-- ===== src/AppSec/Forwarded.antt =====
-- No header of a client stands among the `X-Crowdsec-` headers of the call to the AppSec server.
use ngx_http_crowdsec_module.AppSec.{
  AppSecConfig, Client, metadata, forwarded, skip_forwarded_appsec_header, prepare_appsec_request,
}
use ngx_http_crowdsec_module.Base.{
  ◌≡◌, refl, ap, ◌∙◌, inl, inr, Bool, false, ◌||◌, List, [], ◌∷◌, ◌++◌, map, if◌then◌else◌, arith,
  Bool-cases,
}
use ngx_http_crowdsec_module.Base.Text.{Text, codes, starts_with, to_ascii_lower}

-- The name begins with `X-Crowdsec-`, in any case.
abbrev pub is_metadata : Text × Text → Bool
is_metadata (name, value) = starts_with (codes "x-crowdsec-") (map to_ascii_lower name)

abbrev pub metadata_in : List (Text × Text) → List (Text × Text)
metadata_in [] = []
metadata_in (h ∷ hs) = if is_metadata h then h ∷ metadata_in hs else metadata_in hs

metadata_in-append :
    (xs ys : List (Text × Text)) → metadata_in (xs ++ ys) ≡ metadata_in xs ++ metadata_in ys
metadata_in-append [] ys = refl
metadata_in-append (h ∷ xs) ys = ground (arith, metadata_in-append xs ys)

or_right : (a b : Bool) → (a || b) ≡ false → b ≡ false
or_right a b h = ground arith

skipped :
    (name value : Text)
    → skip_forwarded_appsec_header name ≡ false
    → is_metadata (name, value) ≡ false
unfolding skip_forwarded_appsec_header
skipped name value h = or_right _ _ h

metadata_in-forwarded : (headers : List (Text × Text)) → metadata_in (forwarded headers) ≡ []
metadata_in-forwarded [] = refl
metadata_in-forwarded ((name, value) ∷ headers) =
    elim (Bool-cases (skip_forwarded_appsec_header name)) [
      | inl s ↦ rw s (metadata_in-forwarded headers)
      | inr k ↦ rw (k, skipped name value k) (metadata_in-forwarded headers)
    ]

-- Whatever headers a client sends, the headers of the call to the AppSec server whose names begin
-- with X-Crowdsec-, in any case, are exactly the module's own, each once and in their order.
pub prepare_appsec_request-metadata :
    (user_agent : Text) (config : AppSecConfig) (ip_str : Text) (r : Client) (has_body : Bool)
    → metadata_in (prepare_appsec_request user_agent config ip_str r has_body).set
      ≡ metadata config ip_str r
unfolding prepare_appsec_request
prepare_appsec_request-metadata user_agent config ip_str r has_body =
    metadata_in-append (forwarded r.headers)
      ((codes "User-Agent", user_agent) ∷ metadata config ip_str r)
    ∙ ap (λ (t : List (Text × Text)). t ++ metadata config ip_str r)
        (metadata_in-forwarded r.headers)
