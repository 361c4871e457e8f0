-- ===== src/Captcha/Session.antt =====
-- `captcha_session_valid` of src/captcha/handler.rs, and the life of a session.
use ngx_http_crowdsec_module.Base.{
  ℕ, ◌+◌, ◌≤◌, ◌<◌, ◌^◌, ◌≡◌, refl, inl, inr, Bool, true, false, Option, none, some, List, [], ◌∷◌,
  if◌then◌else◌, bytes_eq, bytes_eq_iff, all, arith,
}
use ngx_http_crowdsec_module.Base.Text.{Text, codes}
use ngx_http_crowdsec_module.Base.Words.{i64_ge, i64_add}
use ngx_http_crowdsec_module.Captcha.Cookie.{Header, get_cookie}
use ngx_http_crowdsec_module.Captcha.Cookie.Jar.{
  header_of, value_of, is_clean_cookie, parse_cookie_value-value_of,
}
use ngx_http_crowdsec_module.Captcha.Jwt.{
  Crypto, CaptchaClaims, Result, new_claims, create_token, ip_matches, validate,
  verify_and_validate,
}
use ngx_http_crowdsec_module.Captcha.Jwt.Signed.{IsCrypto, verify_token-create_token}

-- The fields of `CaptchaConfig` that a session depends on.
pub record SessionConfig : Type 0 where
  pub signing_key : List ℕ
  pub cookie_name : Text
  pub bind_ip : Bool

abbrev is_ok : Result CaptchaClaims → Bool
is_ok (inl _) = true
is_ok (inr _) = false

abbrev session_of : Crypto → SessionConfig → ℕ → Text → Option Text → Bool
session_of c config now client_ip none = false
session_of c config now client_ip (some token) = is_ok (
    verify_and_validate c (config.signing_key) now token
      (if config.bind_ip then some client_ip else none))

-- For the cookie headers of a request, at a second, with the address of the client as a text.
unfoldable pub captcha_session_valid : Crypto → SessionConfig → List Header → ℕ → Text → Bool
unfolding get_cookie verify_and_validate
captcha_session_valid c config headers now client_ip =
    session_of c config now client_ip (get_cookie headers (config.cookie_name))

-- One header with these cookies.
abbrev pub sends : List (Text × Text) → List Header
sends jar = record { is_set = true; key = some (codes "Cookie"); value = some (header_of jar) } ∷ []

pub get_cookie-sends :
    (jar : List (Text × Text)) (name token : Text)
    → all is_clean_cookie jar ≡ true
    → value_of jar name ≡ some token
    → get_cookie (sends jar) name ≡ some token
unfolding get_cookie
get_cookie-sends jar name token clean e = rw (parse_cookie_value-value_of jar name clean, e) refl

ip_matches_same : (b : Bool) (ip : Text) → ip_matches (if b then some ip else none) ip ≡ true
ip_matches_same true ip = let (_, back) = bytes_eq_iff ip ip in back refl
ip_matches_same false ip = refl

abbrev issued : ℕ → List ℕ → Text → ℕ → Option Text → CaptchaClaims
issued at random ip expiry_secs uri = new_claims at random (some ip) expiry_secs uri

pub i64_ge_small : (a d b : ℕ) → b ≤ a + d → a + d < 2 ^ 63 → i64_ge (i64_add a d) b ≡ true
unfolding i64_ge
i64_ge_small a d b le small = ground arith

validate_issued :
    (at now expiry_secs : ℕ) (random : List ℕ) (ip : Text) (uri : Option Text) (b : Bool)
    → at ≤ now + 60
    → now ≤ at + expiry_secs
    → at + expiry_secs < 2 ^ 62
    → validate now (if b then some ip else none) (issued at random ip expiry_secs uri)
      ≡ inl (issued at random ip expiry_secs uri)
unfolding new_claims
validate_issued at now expiry_secs random ip uri b early late small =
    let unexpired : i64_ge (i64_add at expiry_secs) now ≡ true =
      i64_ge_small at expiry_secs now late (omega arith) in
    let since : i64_ge (i64_add now 60) at ≡ true = i64_ge_small now 60 at early (omega arith) in
    rw (unexpired, since, ip_matches_same b ip) (unfold bytes_eq in refl)

-- The session that a token opens, as long as the visitor sends the token in the session's cookie,
-- whatever other cookies without white space and semicolons are sent with it, is valid from a
-- minute before its second of issue to its last second, for the address that it was issued to;
-- times stay below 2^62, Base64 and JSON are undone by their decoders, Base64 has no dots, and
-- every key has a code.
pub captcha_session_valid-create_token :
    (c : Crypto) (config : SessionConfig) (jar : List (Text × Text)) (at now expiry_secs : ℕ)
    (random : List ℕ) (ip : Text) (uri : Option Text) (token : Text)
    → IsCrypto c (new_claims at random (some ip) expiry_secs uri)
    → create_token c config.signing_key (new_claims at random (some ip) expiry_secs uri) ≡ inl token
    → all is_clean_cookie jar ≡ true
    → value_of jar config.cookie_name ≡ some token
    → at ≤ now + 60
    → now ≤ at + expiry_secs
    → at + expiry_secs < 2 ^ 62
    → captcha_session_valid c config (sends jar) now ip ≡ true
unfolding captcha_session_valid
captcha_session_valid-create_token c config jar at now expiry_secs random ip uri token ok made clean
      held early late small =
    let claims = issued at random ip expiry_secs uri in
    let verified = verify_token-create_token c claims ok config.signing_key token made in
    rw
      (
        get_cookie-sends jar config.cookie_name token clean held,
        verified,
        validate_issued at now expiry_secs random ip uri config.bind_ip early late small,
      )
      refl
