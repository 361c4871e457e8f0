-- ===== src/Origin/Laws.antt =====
-- The encodings of `Origin` agree with one another.
use ngx_http_crowdsec_module.Base.{◌≡◌, refl, map}
use ngx_http_crowdsec_module.Base.Text.{Text, to_ascii_lower}
use ngx_http_crowdsec_module.Origin.{
  Origin, crowdsec, cscli, capi, console, lists, appsec, unknown, from_str, from_u8, to_u8, as_str,
  metrics_label,
}

-- An origin survives its byte, its word and its LAPI label.
pub origin_round_trips :
    (o : Origin)
    → (from_u8 (to_u8 o) ≡ o) × (from_str (as_str o) ≡ o) × (from_str (metrics_label o) ≡ o)
unfolding from_str from_u8 to_u8 as_str metrics_label
origin_round_trips crowdsec = (refl, refl, refl)
origin_round_trips cscli = (refl, refl, refl)
origin_round_trips capi = (refl, refl, refl)
origin_round_trips console = (refl, refl, refl)
origin_round_trips lists = (refl, refl, refl)
origin_round_trips appsec = (refl, refl, refl)
origin_round_trips unknown = (refl, refl, refl)

-- Words that differ only in the case of their ASCII letters name the same origin.
pub from_str_case :
    (s t : Text) → map to_ascii_lower s ≡ map to_ascii_lower t → from_str s ≡ from_str t
unfolding from_str
from_str_case s t h = rw h
