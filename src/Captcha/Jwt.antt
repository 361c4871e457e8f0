-- ===== src/Captcha/Jwt.antt =====
-- src/captcha/jwt.rs: the signed token of a captcha session. Base64, JSON, HMAC-SHA256, the
-- decoding of UTF-8 and the random bytes of the nonce are parameters.
pub mod Signed
use ngx_http_crowdsec_module.Base.{
  ℕ, ◌+◌, ◌%◌, ◌^◌, ◌/◌, Bool, true, false, not, ◌⊎◌, inl, inr, Option, none, some, List, [], ◌∷◌,
  ◌++◌, ltb, if◌then◌else◌, bytes_eq,
}
use ngx_http_crowdsec_module.Base.Text.{Text, codes, split, utf8}
use ngx_http_crowdsec_module.Base.Words.{i64_ge, i64_add}

pub record CaptchaClaims : Type 0 where
  pub sub : Text
  pub iat : ℕ
  pub exp : ℕ
  pub typ : Text
  pub uri : Option Text
  pub nonce : Text

pub data JwtError : Type 0 where
  invalid_format invalid_signature invalid_payload invalid_key expired ip_mismatch : JwtError

pub record Crypto : Type 0 where
  pub encode : List ℕ → Text
  pub decode : Text → Option (List ℕ)
  pub hmac : List ℕ → List ℕ → Option (List ℕ)
  pub from_utf8 : List ℕ → Option Text
  pub to_json : CaptchaClaims → Text
  pub from_json : Text → Option CaptchaClaims

-- `format!("{:02x}")` of one byte, and of many.
abbrev hex_digit : ℕ → ℕ
hex_digit n = if ltb n 10 then b'0' + n else 87 + n

unfoldable pub hex_encode : List ℕ → Text
hex_encode [] = []
hex_encode (b ∷ bs) = hex_digit (b / 16) ∷ hex_digit (b % 16) ∷ hex_encode bs

abbrev or_anonymous : Option Text → Text
or_anonymous none = codes "anonymous"
or_anonymous (some ip) = ip

-- `CaptchaClaims::new`, at a second and with the bytes of the nonce.
unfoldable pub new_claims : ℕ → List ℕ → Option Text → ℕ → Option Text → CaptchaClaims
unfolding hex_encode
new_claims now random client_ip expiry_secs request_uri = record {
  sub = or_anonymous client_ip;
  iat = now;
  exp = i64_add now expiry_secs;
  typ = codes "captcha_pass";
  uri = request_uri;
  nonce = hex_encode random;
}

-- Results: `Ok` on the left.
abbrev pub Result : Type 0 → Type 0
Result A = A ⊎ JwtError

infixl 5 ◌>>=◌
abbrev pub ◌>>=◌ : {A B : Type 0} → Result A → (A → Result B) → Result B
inl a >>= f = f a
inr e >>= f = inr e

abbrev pub or_err : {A : Type 0} → JwtError → Option A → Result A
or_err e none = inr e
or_err e (some a) = inl a

-- The header of every token, in Base64.
unfoldable pub header_b64 : Crypto → Text
unfolding utf8
header_b64 c = c.encode (utf8 (codes "{\"alg\":\"HS256\",\"typ\":\"JWT\"}"))

unfoldable pub message_of : Crypto → CaptchaClaims → Text
unfolding header_b64
message_of c claims = header_b64 c ++ (b'.' ∷ c.encode (utf8 (c.to_json claims)))

unfoldable pub create_token : Crypto → List ℕ → CaptchaClaims → Result Text
unfolding utf8 message_of
create_token c signing_key claims = do
  signature ← or_err invalid_key (c.hmac signing_key (utf8 (message_of c claims)))
  inl (message_of c claims ++ (b'.' ∷ c.encode signature))

-- The parts of a token that has three.
abbrev pub three : List Text → Result (Text × Text × Text)
three (h ∷ p ∷ s ∷ []) = inl (h, p, s)
three _ = inr invalid_format

-- `verify_slice` compares the two codes.
abbrev pub same_mac : List ℕ → List ℕ → Result Bool
same_mac mac signature = if bytes_eq mac signature then inl true else inr invalid_signature

abbrev pub claims_in : Crypto → Text → Result CaptchaClaims
claims_in c payload_b64 = do
  payload_bytes ← or_err invalid_payload (c.decode payload_b64)
  payload_str ← or_err invalid_payload (c.from_utf8 payload_bytes)
  or_err invalid_payload (c.from_json payload_str)

abbrev pub verify_parts : Crypto → List ℕ → Text × Text × Text → Result CaptchaClaims
verify_parts c signing_key (header, payload, sig) = do
  signature ← or_err invalid_signature (c.decode sig)
  mac ← or_err invalid_key (c.hmac signing_key (utf8 (header ++ (b'.' ∷ payload))))
  _ ← same_mac mac signature
  claims_in c payload

unfoldable pub verify_token : Crypto → List ℕ → Text → Result CaptchaClaims
unfolding split utf8 bytes_eq
verify_token c signing_key token = three (split b'.' token) >>= verify_parts c signing_key

-- Without `bind_ip` there is no address to compare.
abbrev pub ip_matches : Option Text → Text → Bool
ip_matches none sub = true
ip_matches (some ip) sub = bytes_eq sub ip

abbrev pub validate : ℕ → Option Text → CaptchaClaims → Result CaptchaClaims
validate now client_ip claims =
    if not (i64_ge (claims.exp) now)
    then inr expired
    else if not (bytes_eq (claims.typ) (codes "captcha_pass"))
    then inr invalid_payload
    else if not (i64_ge (i64_add now 60) (claims.iat))
    then inr invalid_payload
    else if ip_matches client_ip (claims.sub)
    then inl claims
    else inr ip_mismatch

-- At the second that the clock shows, zero for a clock that is set before the epoch.
unfoldable pub verify_and_validate : Crypto → List ℕ → ℕ → Text → Option Text → Result CaptchaClaims
unfolding verify_token i64_ge bytes_eq
verify_and_validate c signing_key now token client_ip =
    verify_token c signing_key token >>= validate now client_ip
