-- ===== src/Captcha/Form.antt =====
-- src/captcha/verifier.rs: the form that a visitor posts and the one that goes to the provider, and
-- the answer of the provider. The HTTP exchange with its JSON, the decoding of UTF-8 and the text of
-- an error are inputs.
pub mod Escapes
use ngx_http_crowdsec_module.Base.{
  ℕ, ◌+◌, ◌-◌, ◌*◌, ◌/◌, ◌%◌, Bool, true, false, not, ◌&&◌, ◌||◌, Option, none, some, List, [], ◌∷◌,
  ◌++◌, ltb, ◌==◌, if◌then◌else◌, bytes_eq, take, ◌>>=◌,
}
use ngx_http_crowdsec_module.Base.Text.{
  Text, codes, within, is_ascii_digit, split, split_once, utf8_char, contains,
}
use ngx_http_crowdsec_module.Captcha.Config.{CaptchaProvider, response_field}
use ngx_http_crowdsec_module.Captcha.Cookie.{first_some}

abbrev pub is_unreserved : ℕ → Bool
is_unreserved c =
    within b'A' b'Z' c
    || within b'a' b'z' c
    || within b'0' b'9' c
    || c == b'-'
    || c == b'_'
    || c == b'.'
    || c == b'~'

abbrev pub hex_upper : ℕ → ℕ
hex_upper n = if ltb n 10 then b'0' + n else 55 + n

-- `%{:02X}` of each byte.
abbrev pub escape : List ℕ → Text
escape [] = []
escape (b ∷ bs) = b'%' ∷ hex_upper (b / 16) ∷ hex_upper (b % 16) ∷ escape bs

unfoldable pub url_encode : Text → Text
url_encode [] = []
url_encode (c ∷ s) =
    if is_unreserved c then c ∷ url_encode s else escape (utf8_char c) ++ url_encode s

-- The digit that a character is in base 16.
abbrev pub hex_value : ℕ → Option ℕ
hex_value c =
    if within b'0' b'9' c
    then some (c - b'0')
    else if within b'A' b'F' c
    then some (c - 55)
    else if within b'a' b'f' c
    then some (c - 87)
    else none

abbrev hex_pair : Option ℕ → Option ℕ → Option ℕ
hex_pair (some h) (some l) = some (16 * h + l)
hex_pair _ _ = none

-- `u8::from_str_radix` of two characters, which allows a plus sign in front.
abbrev pub from_hex : ℕ → ℕ → Option ℕ
from_hex x y = if x == b'+' then hex_value y else hex_pair (hex_value x) (hex_value y)

abbrev decoded : Option ℕ → ℕ → ℕ → Text → Text
decoded (some b) x y rest = b ∷ rest
decoded none x y rest = b'%' ∷ x ∷ y ∷ rest

abbrev pub plain_char : ℕ → ℕ
plain_char c = if c == b'+' then 32 else c

-- A byte that is decoded becomes the character with its number.
unfoldable pub url_decode : Text → Text
url_decode [] = []
url_decode (c ∷ []) = plain_char c ∷ []
url_decode (c ∷ x ∷ []) = elim (c == b'%') [
  | true ↦ b'%' ∷ x ∷ []
  | false ↦ plain_char c ∷ url_decode (x ∷ [])
]
url_decode (c ∷ x ∷ y ∷ s) = elim (c == b'%') [
  | true ↦ decoded (from_hex x y) x y (url_decode s)
  | false ↦ plain_char c ∷ url_decode (x ∷ y ∷ s)
]

abbrev pub field_in : (Text → Bool) → Option (Text × Text) → Option Text
field_in wanted none = none
field_in wanted (some (key, value)) =
    if wanted (url_decode key) then some (url_decode value) else none

-- The loops over the pairs of the body.
abbrev pub find_field : (Text → Bool) → List Text → Option Text
find_field wanted [] = none
find_field wanted (pair ∷ rest) =
    first_some (field_in wanted (split_once b'=' pair)) (find_field wanted rest)

abbrev is_generic_field : Text → Bool
is_generic_field key =
    bytes_eq key (codes "captcha-response")
    || bytes_eq key (codes "captcha_response")
    || bytes_eq key (codes "response")

-- The body as `from_utf8` reads it.
unfoldable pub parse_captcha_response : Option Text → CaptchaProvider → Option Text
unfolding split split_once url_decode bytes_eq response_field
parse_captcha_response none provider = none
parse_captcha_response (some body_str) provider =
    first_some (find_field (λ key. bytes_eq key (response_field provider)) (split b'&' body_str))
      (find_field is_generic_field (split b'&' body_str))

pub data VerifyError : Type 0 where
  network_error invalid_response provider_error : Text → VerifyError
  timed_out : VerifyError

pub data VerifyResult : Type 0 where
  success : VerifyResult
  failed : Text → VerifyResult
  error : VerifyError → VerifyResult

unfoldable pub form_body : Text → Text → Text → Text
unfolding url_encode
form_body secret_key response remote_ip =
    codes "secret="
    ++ url_encode secret_key
    ++ codes "&response="
    ++ url_encode response
    ++ codes "&remoteip="
    ++ url_encode remote_ip

-- What the agent gives: a JSON answer, one that does not parse, a status, or a failed transport
-- with the text of its error and that text in lower case.
pub data Reply : Type 0 where
  json : Bool → Option (List Text) → Reply
  not_json : Text → Reply
  status : Text → Text → Reply
  transport : Text → Text → Reply

-- `join(", ")`
abbrev join : List Text → Text
join [] = []
join (s ∷ []) = s
join (s ∷ t ∷ rest) = s ++ codes ", " ++ join (t ∷ rest)

abbrev reasons : Text → VerifyResult
reasons [] = failed (codes "verification failed")
reasons (c ∷ s) = failed (c ∷ s)

abbrev or_no_codes : Option (List Text) → List Text
or_no_codes none = []
or_no_codes (some errors) = errors

-- A status comes as its number in decimal digits and its body.
unfoldable pub verify_result : Reply → VerifyResult
unfolding contains
verify_result (json true error_codes) = success
verify_result (json false error_codes) = reasons (join (or_no_codes error_codes))
verify_result (not_json e) = error (invalid_response e)
verify_result (status code body) =
    error (provider_error (codes "HTTP " ++ code ++ codes ": " ++ take 100 body))
verify_result (transport e lower) =
    if contains (codes "timeout") lower || contains (codes "timed out") lower
    then error timed_out
    else error (network_error e)
