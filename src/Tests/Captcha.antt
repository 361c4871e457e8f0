-- ===== src/Tests/Captcha.antt =====
-- The theorems on captcha sessions at concrete cookies, tokens and addresses.
use ngx_http_crowdsec_module.Base.{
  ℕ, ◌+◌, ◌-◌, ◌≡◌, refl, inl, true, false, none, some, List, [], ◌∷◌, ◌++◌, map, bytes_eq, arith,
}
use ngx_http_crowdsec_module.Base.Text.{Text, codes, utf8, split}
use ngx_http_crowdsec_module.Base.Words.{i64_ge}
use ngx_http_crowdsec_module.Captcha.Body.Context.{Storable, to_config-from_config}
use ngx_http_crowdsec_module.Captcha.Body.Flow.{Now, complete_verification}
use ngx_http_crowdsec_module.Captcha.Body.Pages.{Visit, add_header}
use ngx_http_crowdsec_module.Captcha.Body.Opens.{granted}
use ngx_http_crowdsec_module.Captcha.Body.Outcomes.{lets_in, Earned, complete_verification-Earned}
use ngx_http_crowdsec_module.Captcha.Body.{CaptchaConfig, Conversions, from_config, to_config}
use ngx_http_crowdsec_module.Captcha.Config.{turnstile, auto}
use ngx_http_crowdsec_module.Captcha.Form.{success}
use ngx_http_crowdsec_module.Captcha.Redirect.{is_safe_header_value}
use ngx_http_crowdsec_module.Base.Text.{is_ascii_digit}
use ngx_http_crowdsec_module.RequestBody.{unreadable}
use ngx_http_crowdsec_module.Template.{Template, EscapeMode}
use ngx_http_crowdsec_module.Tests.Requests.{visitor}
use ngx_http_crowdsec_module.Captcha.Form.Escapes.{url_decode-url_encode}
use ngx_http_crowdsec_module.Captcha.Form.{url_encode, url_decode}
use ngx_http_crowdsec_module.Captcha.Jwt.Signed.{verify_and_validate-Accepts, Signs, Accepts}
use ngx_http_crowdsec_module.Captcha.Jwt.{
  Crypto, CaptchaClaims, new_claims, create_token, verify_token, verify_and_validate,
}
use ngx_http_crowdsec_module.Captcha.Redirect.Safe.{OnSite, sanitize_return_uri-OnSite}
use ngx_http_crowdsec_module.Captcha.Redirect.{sanitize_return_uri}
use ngx_http_crowdsec_module.Captcha.Session.{SessionConfig}

sanitize_return_uri-OnSite_example : OnSite (sanitize_return_uri (codes " //evil.example/"))
sanitize_return_uri-OnSite_example = sanitize_return_uri-OnSite (codes " //evil.example/")

url_decode-url_encode_example : url_decode (url_encode (codes "a b&c=1+1")) ≡ codes "a b&c=1+1"
url_decode-url_encode_example = url_decode-url_encode (codes "a b&c=1+1") refl

-- Codes that shift every byte past the dot, one secret code, and JSON of one text.
abbrev claims : CaptchaClaims
claims = new_claims 1000 (7 ∷ []) (some (codes "192.0.2.9")) 3600 none

abbrev shifted_for : CaptchaClaims → Crypto
shifted_for x = record {
  encode = λ b. map (λ n. n + 47) b;
  decode = λ t. some (map (λ n. n - 47) t);
  hmac = λ key m. some (1 ∷ 2 ∷ []);
  from_utf8 = λ b. some b;
  to_json = λ y. codes "{}";
  from_json = λ t. some x;
}

abbrev shifted : Crypto
shifted = shifted_for claims

abbrev token : Text
token =
    map (λ (n : ℕ). n + 47) (codes "{\"alg\":\"HS256\",\"typ\":\"JWT\"}")
    ++ (46 ∷ (map (λ (n : ℕ). n + 47) (codes "{}") ++ (46 ∷ 48 ∷ 49 ∷ [])))

token_made : create_token shifted (5 ∷ []) claims ≡ inl token
unfolding create_token utf8
token_made = refl

verify_and_validate-Accepts_example :
    Signs shifted (5 ∷ []) token claims × Accepts 2000 (some (codes "192.0.2.9")) claims
verify_and_validate-Accepts_example =
    verify_and_validate-Accepts shifted (5 ∷ []) 2000 token (some (codes "192.0.2.9")) claims
      (unfold verify_and_validate verify_token new_claims split utf8 bytes_eq i64_ge in refl)

abbrev config : SessionConfig
config = record { signing_key = 5 ∷ []; cookie_name = codes "crowdsec_captcha"; bind_ip = true }

abbrev held : List (Text × Text)
held = (codes "theme", codes "dark") ∷ (codes "crowdsec_captcha", token) ∷ []

-- A captcha posted under a configuration, with a decoder for ASCII.
abbrev std : Conversions
std = record {
  from_utf8 = λ b. some b;
  to_lowercase = λ t. t;
  ip_to_string = λ ip. codes "192.0.2.9";
  parse_ip = λ t. some visitor;
}

abbrev posted_config : CaptchaConfig
posted_config = record {
  provider = turnstile;
  site_key = codes "site";
  secret_key = codes "secret";
  signing_key = 5 ∷ [];
  cookie_name = codes "crowdsec_captcha";
  expiry_secs = 3600;
  fail_open = false;
  bind_ip = true;
  cookie_secure = auto;
}

posted_config-Storable : Storable std posted_config visitor
unfolding utf8
posted_config-Storable = record {
  address = (ground arith, refl);
  secret = (ground arith, refl);
  site = (ground arith, refl);
  cookie = (ground arith, refl);
}

to_config-from_config_example :
    to_config std (from_config std posted_config visitor) ≡ posted_config
to_config-from_config_example =
    to_config-from_config std posted_config visitor posted_config-Storable

abbrev page : Template
page = record { segments = []; content_type = codes "text/html"; escape_mode = EscapeMode.html }

abbrev visit : Visit
visit = record {
  unparsed_uri = some (codes "/login");
  template = some page;
  extracted = unreadable;
  ssl = true;
  from_proxy = false;
  headers = [];
}

abbrev now : Now
now = record { secs = 1000; random = 7 ∷ []; decimal = λ n. codes "3600" }

abbrev for_visitor : Crypto
for_visitor = shifted_for (granted std posted_config visitor visit now)

let_in :
    lets_in (
      complete_verification for_visitor std visit now success
        (some (from_config std posted_config visitor)))
    ≡ true
unfolding complete_verification bytes_eq utf8 add_header is_safe_header_value is_ascii_digit
    from_config
let_in = refl

complete_verification-Earned_example :
    Earned std (some (from_config std posted_config visitor)) success
complete_verification-Earned_example =
    complete_verification-Earned for_visitor std visit now success
      (some (from_config std posted_config visitor)) let_in
