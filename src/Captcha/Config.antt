-- ===== src/Captcha/Config.antt =====
-- src/captcha/config.rs: the providers, and when a cookie is marked secure. `str::to_lowercase` is
-- a parameter.
use ngx_http_crowdsec_module.Base.{Option, none, some, ◌||◌, if◌then◌else◌, bytes_eq}
use ngx_http_crowdsec_module.Base.Text.{Text, codes}

pub data CookieSecure : Type 0 where
  auto on off : CookieSecure

pub data CaptchaProvider : Type 0 where
  hcaptcha turnstile recaptcha : CaptchaProvider

abbrev cookie_secure_of : Text → Option CookieSecure
cookie_secure_of s =
    if bytes_eq s (codes "auto")
    then some auto
    else if bytes_eq s (codes "on") || bytes_eq s (codes "true") || bytes_eq s (codes "yes")
    then some on
    else if bytes_eq s (codes "off") || bytes_eq s (codes "false") || bytes_eq s (codes "no")
    then some off
    else none

-- `CookieSecure::from_str`
unfoldable pub cookie_secure : (Text → Text) → Text → Option CookieSecure
unfolding bytes_eq
cookie_secure to_lowercase s = cookie_secure_of (to_lowercase s)

abbrev provider_of : Text → Option CaptchaProvider
provider_of s =
    if bytes_eq s (codes "hcaptcha")
    then some hcaptcha
    else if bytes_eq s (codes "turnstile")
    then some turnstile
    else if bytes_eq s (codes "recaptcha")
    then some recaptcha
    else none

-- `CaptchaProvider::from_str`
unfoldable pub provider : (Text → Text) → Text → Option CaptchaProvider
unfolding bytes_eq
provider to_lowercase s = provider_of (to_lowercase s)

unfoldable pub verify_url : CaptchaProvider → Text
verify_url hcaptcha = codes "https://api.hcaptcha.com/siteverify"
verify_url turnstile = codes "https://challenges.cloudflare.com/turnstile/v0/siteverify"
verify_url recaptcha = codes "https://www.google.com/recaptcha/api/siteverify"

unfoldable pub response_field : CaptchaProvider → Text
response_field hcaptcha = codes "h-captcha-response"
response_field turnstile = codes "cf-turnstile-response"
response_field recaptcha = codes "g-recaptcha-response"

unfoldable pub script_url : CaptchaProvider → Text
script_url hcaptcha = codes "https://js.hcaptcha.com/1/api.js"
script_url turnstile = codes "https://challenges.cloudflare.com/turnstile/v0/api.js"
script_url recaptcha = codes "https://www.google.com/recaptcha/api.js"

unfoldable pub div_class : CaptchaProvider → Text
div_class hcaptcha = codes "h-captcha"
div_class turnstile = codes "cf-turnstile"
div_class recaptcha = codes "g-recaptcha"
