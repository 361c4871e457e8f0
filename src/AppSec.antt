-- ===== src/AppSec.antt =====
-- src/appsec.rs: the configuration and the context of an inspection, the request to the AppSec server
-- and which headers pass. The decoding of UTF-8 and the texts of addresses are parameters; a call of
-- the HTTP client is the headers that are set on it, in their order.
pub mod Response
pub mod Inspect
pub mod Found
pub mod Callbacks
pub mod Forwarded
pub mod Contexts
pub mod Verdicts
pub mod Shut
use ngx_http_crowdsec_module.Base.{
  ℕ, ◌-◌, Bool, true, false, not, ◌&&◌, ◌||◌, Option, none, some, List, [], ◌∷◌, ◌++◌, map, min,
  leb, ◌==◌, if◌then◌else◌, length, take, replicate, any, all, bytes_eq, ◌>>=◌,
}
use ngx_http_crowdsec_module.Base.Text.{
  Text, codes, utf8, starts_with, to_ascii_lower, eq_ignore_ascii_case, is_ascii_digit, within,
}
use ngx_http_crowdsec_module.Captcha.Body.{Conversions}
use ngx_http_crowdsec_module.Handler.{HandlerResult, LocConfig, encode, decode}
use ngx_http_crowdsec_module.Net.{IpAddr}
use ngx_http_crowdsec_module.RequestBody.{appsec_body_ctx_magic}

pub data AppSecFailureAction : Type 0 where
  passthrough deny : AppSecFailureAction

-- `LocConfig`, with the fields that only this file reads.
pub record AppSecLoc : Type 0 where
  pub loc : LocConfig
  pub appsec_failure_action : Option AppSecFailureAction
  pub bot_challenge_enabled : Option Bool

pub record AppSecConfig : Type 0 where
  pub url : Text
  pub api_key : Text
  pub timeout_ms : ℕ
  pub max_body_size : ℕ
  pub drop_unreadable_body : Bool

pub record AppSecBodyContext : Type 0 where
  pub magic : ℕ
  pub client_ip : List ℕ
  pub client_ip_len : ℕ
  pub failure_action : ℕ
  pub internal_challenge : ℕ
  pub bot_challenge : ℕ
  pub stored_result : ℕ
  pub shm_ban : ℕ

-- `u8::from`
abbrev pub byte_of : Bool → ℕ
byte_of true = 1
byte_of false = 0

abbrev pub failure_byte : AppSecFailureAction → ℕ
failure_byte passthrough = 0
failure_byte deny = 1

-- `AppSecBodyContext::new`, given the text of the address.
unfoldable pub new_context : Text → AppSecFailureAction → Bool → Bool → Bool → AppSecBodyContext
unfolding utf8
new_context ip_str failure_action internal_challenge bot_challenge shm_ban =
    let len = min (length (utf8 ip_str)) 63 in
    record {
      magic = appsec_body_ctx_magic;
      client_ip = take len (utf8 ip_str) ++ replicate (64 - len) 0;
      client_ip_len = len;
      failure_action = failure_byte failure_action;
      internal_challenge = byte_of internal_challenge;
      bot_challenge = byte_of bot_challenge;
      stored_result = 0;
      shm_ban = byte_of shm_ban;
    }

unfoldable pub failure_action_of : AppSecBodyContext → AppSecFailureAction
failure_action_of ctx = if ctx.failure_action == 1 then deny else passthrough

unfoldable pub client_ip_of : Conversions → AppSecBodyContext → Option IpAddr
client_ip_of std ctx = std.from_utf8 (take ctx.client_ip_len ctx.client_ip) >>= std.parse_ip

unfoldable pub store_result : HandlerResult → AppSecBodyContext → AppSecBodyContext
unfolding encode
store_result result ctx = record ctx { stored_result = encode result }

unfoldable pub take_result : AppSecBodyContext → Option HandlerResult
unfolding decode
take_result ctx = decode (ctx.stored_result)

-- What `prepare_appsec_request` reads of the request: its headers where they are texts.
pub record Client : Type 0 where
  pub uri : Option Text
  pub user_agent : Option Text
  pub headers : List (Text × Text)
  pub verb : Text
  pub http_version : ℕ

unfoldable pub appsec_http_version_header : ℕ → Text
appsec_http_version_header v =
    if v == 9
    then codes "09"
    else if v == 1000
    then codes "10"
    else if v == 1001
    then codes "11"
    else if v == 2000
    then codes "20"
    else if v == 3000
    then codes "30"
    else codes "11"

abbrev hop_by_hop : List Text
hop_by_hop =
    codes "connection"
    ∷ codes "keep-alive"
    ∷ codes "proxy-connection"
    ∷ codes "transfer-encoding"
    ∷ codes "te"
    ∷ codes "trailer"
    ∷ codes "upgrade"
    ∷ codes "host"
    ∷ codes "content-length"
    ∷ codes "user-agent"
    ∷ []

unfoldable pub skip_forwarded_appsec_header : Text → Bool
unfolding bytes_eq starts_with to_ascii_lower
skip_forwarded_appsec_header name =
    let lower = map to_ascii_lower name in
    any (bytes_eq lower) hop_by_hop || starts_with (codes "x-crowdsec-") lower

abbrev pub forwarded : List (Text × Text) → List (Text × Text)
forwarded [] = []
forwarded ((name, value) ∷ headers) =
    if skip_forwarded_appsec_header name
    then forwarded headers
    else (name, value) ∷ forwarded headers

abbrev pub host_of : List (Text × Text) → Text
host_of [] = []
host_of ((k, v) ∷ headers) = if eq_ignore_ascii_case k (codes "host") then v else host_of headers

abbrev pub text_or : Text → Option Text → Text
text_or other none = other
text_or other (some t) = t

-- What the module says of the request.
unfoldable pub metadata : AppSecConfig → Text → Client → List (Text × Text)
unfolding appsec_http_version_header eq_ignore_ascii_case
metadata config ip_str r =
    (codes "X-Crowdsec-Appsec-Ip", ip_str)
    ∷ (codes "X-Crowdsec-Appsec-Uri", text_or (codes "/") r.uri)
    ∷ (codes "X-Crowdsec-Appsec-Host", host_of r.headers)
    ∷ (codes "X-Crowdsec-Appsec-Verb", r.verb)
    ∷ (codes "X-Crowdsec-Appsec-Api-Key", config.api_key)
    ∷ (codes "X-Crowdsec-Appsec-User-Agent", text_or [] r.user_agent)
    ∷ (codes "X-Crowdsec-Appsec-Http-Version", appsec_http_version_header r.http_version)
    ∷ []

-- A call: its method, its target, its bound in time, and its headers.
pub record Call : Type 0 where
  pub is_post : Bool
  pub url : Text
  pub timeout_ms : ℕ
  pub set : List (Text × Text)

-- `user_agent` is the one that the module gives itself.
unfoldable pub prepare_appsec_request : Text → AppSecConfig → Text → Client → Bool → Call
unfolding skip_forwarded_appsec_header metadata
prepare_appsec_request user_agent config ip_str r has_body = record {
  is_post = has_body;
  url = config.url;
  timeout_ms = config.timeout_ms;
  set = forwarded r.headers ++ ((codes "User-Agent", user_agent) ∷ metadata config ip_str r);
}

abbrev is_header_byte : ℕ → Bool
is_header_byte b = is_ascii_digit b || within b'A' b'Z' b || within b'a' b'z' b || b == b'-'

abbrev kept_from_clients : List Text
kept_from_clients =
    codes "connection" ∷ codes "content-length" ∷ codes "transfer-encoding" ∷ codes "upgrade" ∷ []

-- A character that is not ASCII has no byte that is alphanumeric.
unfoldable pub safe_header : Text → Text → Bool
unfolding bytes_eq to_ascii_lower is_ascii_digit
safe_header name value =
    not (length name == 0)
    && all is_header_byte name
    && not (any (λ c. c == 13 || c == 10) value)
    && not (any (bytes_eq (map to_ascii_lower name)) kept_from_clients)
