-- ===== src/Captcha/Body/Opens.antt =====
-- From a posted captcha that the provider confirms to a session that holds.
use ngx_http_crowdsec_module.Base.{
  ℕ, ◌+◌, ◌≤◌, ◌≡◌, Bool, true, none, some, List, if◌then◌else◌, all,
}
use ngx_http_crowdsec_module.Base.Text.{Text}
use ngx_http_crowdsec_module.Captcha.Body.{
  CaptchaConfig, Conversions, CaptchaPostContext, from_config,
}
use ngx_http_crowdsec_module.Captcha.Body.Context.{Storable}
use ngx_http_crowdsec_module.Captcha.Body.Flow.{Now}
use ngx_http_crowdsec_module.Captcha.Body.Pages.{Visit, captcha_return_uri}
use ngx_http_crowdsec_module.Captcha.Cookie.{should_cookie_be_secure}
use ngx_http_crowdsec_module.Captcha.Cookie.Jar.{value_of, is_clean_cookie}
use ngx_http_crowdsec_module.Captcha.Jwt.{Crypto, CaptchaClaims, new_claims}
use ngx_http_crowdsec_module.Captcha.Session.{SessionConfig, captcha_session_valid, sends}
use ngx_http_crowdsec_module.Net.{IpAddr}
use ngx_http_crowdsec_module.Template.{Template}

-- What the test of a session reads of the configuration.
abbrev pub session_config : CaptchaConfig → SessionConfig
session_config config = record {
  signing_key = config.signing_key;
  cookie_name = config.cookie_name;
  bind_ip = config.bind_ip;
}

-- The claims that a confirmed answer of a client is given.
abbrev pub granted : Conversions → CaptchaConfig → IpAddr → Visit → Now → CaptchaClaims
granted std config ip v now =
    new_claims now.secs now.random (if config.bind_ip then some (std.ip_to_string ip) else none)
      config.expiry_secs (some (captcha_return_uri v.unparsed_uri))

-- A visitor who sends the token back, whatever other cookies without white space and semicolons are
-- sent with it.
abbrev pub HoldsSession : Crypto → CaptchaConfig → Text → ℕ → Text → Type 0
HoldsSession c config token at client_ip =
    (jar : List (Text × Text)) (now : ℕ)
    → all is_clean_cookie jar ≡ true
    → value_of jar config.cookie_name ≡ some token
    → at ≤ now + 60
    → now ≤ at + config.expiry_secs
    → captcha_session_valid c (session_config config) (sends jar) now client_ip ≡ true

module _ (c : Crypto) (std : Conversions) (config : CaptchaConfig) (ip : IpAddr) (v : Visit)
    (now : Now) where
  abbrev issued : CaptchaClaims
  issued = granted std config ip v now

  module _ (s : Storable std config ip) (parses : std.parse_ip (std.ip_to_string ip) ≡ some ip)
      (t : Template) (there : v.template ≡ some t) where
    abbrev posted : CaptchaPostContext
    posted = from_config std config ip

    abbrev secure : Bool
    secure = should_cookie_be_secure config.cookie_secure v.ssl v.from_proxy v.headers
