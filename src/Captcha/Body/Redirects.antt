-- ===== src/Captcha/Body/Redirects.antt =====
-- The redirect that opens a session carries its cookie.
use ngx_http_crowdsec_module.Base.{
  ℕ, ◌≡◌, ◌≢◌, ◌⊎◌, subst, refl, ap, ◌∙◌, inl, inr, Bool, true, false, ◌||◌, Option, none, some,
  List, [], ◌∷◌, ◌++◌, ◌==◌, any, bytes_eq, arith, Option-cases,
}
use mathlib.Core.List.{append_assoc}
use ngx_http_crowdsec_module.Base.Text.{Text, codes, is_ascii_digit, utf8}
use ngx_http_crowdsec_module.Captcha.Body.Pages.{
  Response, add_header, send_buffered_response, success_redirect, captcha_return_uri,
  is_header_name,
}
use ngx_http_crowdsec_module.Captcha.Body.{CaptchaConfig}
use ngx_http_crowdsec_module.Captcha.Cookie.Jar.{value_of}
use ngx_http_crowdsec_module.Captcha.Cookie.{build_set_cookie, cookie_attr_suffix, lax}
use ngx_http_crowdsec_module.Captcha.Jwt.{
  Crypto, CaptchaClaims, create_token, message_of, header_b64,
}
use ngx_http_crowdsec_module.Captcha.Redirect.Safe.{OnSite, sanitize_return_uri-OnSite}
use ngx_http_crowdsec_module.Captcha.Redirect.{is_safe_header_value}

-- A carriage return or a line feed.
abbrev pub is_break : ℕ → Bool
is_break c = c == 13 || c == 10

abbrev pub IsLine : Text → Type 0
IsLine t = any is_break t ≡ false

-- Base64 is written in one line, and so are the name of the cookie and the digits of a number.
pub record AreLines (c : Crypto) (decimal : ℕ → Text) (config : CaptchaConfig) : Type 0 where
  pub base64 : (b : List ℕ) → IsLine (c.encode b)
  pub name : IsLine config.cookie_name
  pub age : IsLine (decimal config.expiry_secs)

-- The answer of a browser that is sent on, with the cookie of a session.
pub record OpensSession (name token uri : Text) (r : Response) : Type 0 where
  pub status : r.status ≡ 303
  pub location : value_of r.headers (codes "Location") ≡ some uri
  pub cookie :
      (attributes : Text) × (value_of r.headers (codes "Set-Cookie")
        ≡ some (name ++ (b'=' ∷ token ++ (b';' ∷ attributes))))

IsLine-append : (s t : Text) → IsLine s → IsLine t → IsLine (s ++ t)
IsLine-append [] t hs ht = ht
IsLine-append (x ∷ s) t hs ht = ground (arith, IsLine-append s t)

token_of : {A B : Type 0} → A → A ⊎ B → A
token_of d (inl a) = a
token_of d (inr b) = d

inl-injective : {B : Type 0} {a b : Text} → ◌≡◌ {A = Text ⊎ B} (inl a) (inl b) → a ≡ b
unfolding token_of
inl-injective {B} {a} e = ap (token_of a) e

inr≢inl : {B : Type 0} (b : B) (a : Text) → ◌≢◌ {A = Text ⊎ B} (inr b) (inl a)
inr≢inl b a e = absurd (cc)

pub create_token-IsLine :
    (c : Crypto) (key : List ℕ) (claims : CaptchaClaims) (token : Text)
    → ((b : List ℕ) → IsLine (c.encode b))
    → create_token c key claims ≡ inl token
    → IsLine token
unfolding create_token message_of header_b64
create_token-IsLine c key claims token lines e =
    elim (Option-cases (c.hmac key (utf8 (message_of c claims)))) [
      | inl n ↦ absurd (inr≢inl _ _ (rw n at e))
      | inr (mac, h) ↦
          let whole =
            IsLine-append (message_of c claims) (b'.' ∷ c.encode mac)
              (IsLine-append (header_b64 c) (b'.' ∷ c.encode (utf8 (c.to_json claims)))
                (lines (utf8 (codes "{\"alg\":\"HS256\",\"typ\":\"JWT\"}")))
                (rw (lines (utf8 (c.to_json claims))) refl))
              (rw (lines mac) refl) in
          subst IsLine (inl-injective (rw h at e)) whole
    ]

safe_line : (x : ℕ) (t : Text) → IsLine (x ∷ t) → is_safe_header_value (x ∷ t) ≡ true
unfolding is_safe_header_value
safe_line x t h = rw h refl

plain-IsLine :
    (t : Text)
    → ((a b : Text) (c : ℕ) → t ≡ a ++ (c ∷ b) → (c ≢ 92) × (c ≢ 13) × (c ≢ 10))
    → IsLine t
plain-IsLine [] h = refl
plain-IsLine (x ∷ t) h =
    let (_, cr, lf) = h [] t x refl in
    let rest = plain-IsLine t (λ a b c e. h (x ∷ a) b c (ap (◌∷◌ x) e)) in ground arith

OnSite-safe : (uri : Text) → OnSite uri → is_safe_header_value uri ≡ true
OnSite-safe uri o =
    let (path, e) = o.rooted in
    let line = plain-IsLine uri o.plain in rw e (safe_line b'/' path (rw e at line))

add_header-safe :
    (name value : Text) (headers : List (Text × Text))
    → is_safe_header_value value ≡ true
    → is_header_name name ≡ true
    → add_header (name, value) headers ≡ headers ++ ((name, value) ∷ [])
unfolding add_header
add_header-safe name value headers v n = rw (v, n) refl

nonempty-safe :
    (name t : Text) → IsLine (name ++ (b'=' ∷ t)) → is_safe_header_value (name ++ (b'=' ∷ t)) ≡ true
nonempty-safe [] t h = safe_line b'=' t h
nonempty-safe (x ∷ name) t h = safe_line x (name ++ (b'=' ∷ t)) h

-- The text of the cookie, with its attributes set apart.
abbrev cookie_text : CaptchaConfig → Text → Text → Text
cookie_text config token attributes = config.cookie_name ++ (b'=' ∷ token ++ (b';' ∷ attributes))

abbrev attributes_of : (ℕ → Text) → CaptchaConfig → Bool → Text
attributes_of decimal config is_secure =
    codes " Max-Age="
    ++ (decimal config.expiry_secs
        ++ (codes "; Path=" ++ (codes "/" ++ cookie_attr_suffix is_secure true lax)))

build_set_cookie-text :
    (decimal : ℕ → Text) (config : CaptchaConfig) (token : Text) (is_secure : Bool)
    → build_set_cookie decimal config.cookie_name token config.expiry_secs
        (codes "/")
        is_secure
        true
        lax
      ≡ cookie_text config token (attributes_of decimal config is_secure)
unfolding build_set_cookie
build_set_cookie-text decimal config token is_secure = simp append_assoc refl

suffix-IsLine : (is_secure : Bool) → IsLine (cookie_attr_suffix is_secure true lax)
unfolding cookie_attr_suffix
suffix-IsLine true = refl
suffix-IsLine false = refl

cookie-safe :
    (c : Crypto) (decimal : ℕ → Text) (config : CaptchaConfig) (token : Text) (is_secure : Bool)
    → AreLines c decimal config
    → IsLine token
    → is_safe_header_value (cookie_text config token (attributes_of decimal config is_secure))
      ≡ true
cookie-safe c decimal config token is_secure l t =
    let attributes : IsLine (attributes_of decimal config is_secure) =
      IsLine-append (decimal config.expiry_secs) _ l.age (
        IsLine-append (codes "; Path=/") (cookie_attr_suffix is_secure true lax) refl
          (suffix-IsLine is_secure)) in
    nonempty-safe config.cookie_name (token ++ (b';' ∷ attributes_of decimal config is_secure))
      (IsLine-append config.cookie_name _ l.name (IsLine-append token _ t attributes))

captcha_return_uri-OnSite : (uri : Option Text) → OnSite (captcha_return_uri uri)
unfolding captcha_return_uri
captcha_return_uri-OnSite none = sanitize_return_uri-OnSite (codes "/")
captcha_return_uri-OnSite (some uri) = sanitize_return_uri-OnSite uri

set_headers :
    (location cookie content : Text)
    → is_safe_header_value location ≡ true
    → is_safe_header_value cookie ≡ true
    → (send_buffered_response 303
        ((codes "Location", location)
          ∷ (codes "Set-Cookie", cookie)
          ∷ (codes "Content-Type", codes "text/plain")
          ∷ (codes "Cache-Control", codes "no-store, no-cache, must-revalidate")
          ∷ [])
        content).headers
      ≡ (codes "Location", location)
        ∷ (codes "Set-Cookie", cookie)
        ∷ (codes "Content-Type", codes "text/plain")
        ∷ (codes "Cache-Control", codes "no-store, no-cache, must-revalidate")
        ∷ []
unfolding send_buffered_response add_header is_ascii_digit is_safe_header_value
set_headers location cookie content u v = rw (u, v) refl

pub success_redirect-OpensSession :
    (c : Crypto) (decimal : ℕ → Text) (config : CaptchaConfig) (is_secure : Bool) (token : Text)
    (uri : Option Text)
    → AreLines c decimal config
    → IsLine token
    → OpensSession config.cookie_name token
        (captcha_return_uri uri)
        (success_redirect decimal config is_secure token (captcha_return_uri uri))
unfolding success_redirect send_buffered_response is_ascii_digit bytes_eq
success_redirect-OpensSession c decimal config is_secure token uri l t =
    let goes : is_safe_header_value (captcha_return_uri uri) ≡ true =
      OnSite-safe (captcha_return_uri uri) (captcha_return_uri-OnSite uri) in
    let attributes = attributes_of decimal config is_secure in
    let cookie = cookie_text config token attributes in
    let text = build_set_cookie-text decimal config token is_secure in
    let whole : (success_redirect decimal config is_secure token (captcha_return_uri uri)).headers
        ≡ (codes "Location", captcha_return_uri uri)
          ∷ (codes "Set-Cookie", cookie)
          ∷ (codes "Content-Type", codes "text/plain")
          ∷ (codes "Cache-Control", codes "no-store, no-cache, must-revalidate")
          ∷ [] =
      ap
        (λ t.
          (send_buffered_response 303
            ((codes "Location", captcha_return_uri uri)
              ∷ (codes "Set-Cookie", t)
              ∷ (codes "Content-Type", codes "text/plain")
              ∷ (codes "Cache-Control", codes "no-store, no-cache, must-revalidate")
              ∷ [])
            (codes "Redirecting...")).headers)
        text
      ∙ set_headers (captcha_return_uri uri) cookie (codes "Redirecting...") goes
          (cookie-safe c decimal config token is_secure l t) in
    record { status = refl; location = rw whole refl; cookie = (attributes, rw whole refl) }
