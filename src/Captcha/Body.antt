-- ===== src/Captcha/Body.antt =====
-- src/captcha/body.rs: the context that a posted captcha keeps with its request, and the tests of the
-- request. The decoding of UTF-8, the text of an address and `str::to_lowercase` are parameters.
pub mod Flow
pub mod Pages
pub mod Context
pub mod Outcomes
pub mod Redirects
pub mod Opens
use ngx_http_crowdsec_module.Base.{
  ℕ, ◌-◌, ◌*◌, Bool, true, false, not, Option, none, some, List, [], ◌∷◌, ◌++◌, min, leb, ◌==◌,
  if◌then◌else◌, length, take, replicate,
}
use ngx_http_crowdsec_module.Base.Text.{Text, codes, utf8, starts_with}
use ngx_http_crowdsec_module.Captcha.Config.{CaptchaProvider, CookieSecure}
use ngx_http_crowdsec_module.Handler.{HandlerResult, encode, decode}
use ngx_http_crowdsec_module.Net.{IpAddr}
use ngx_http_crowdsec_module.RequestBody.{
  captcha_post_ctx_magic, ReadResult, finish_phase_body_read, Action, finalize_allow, left_alone,
  finalize,
}

-- `CaptchaConfig` of src/captcha/config.rs
pub record CaptchaConfig : Type 0 where
  pub provider : CaptchaProvider
  pub site_key : Text
  pub secret_key : Text
  pub signing_key : List ℕ
  pub cookie_name : Text
  pub expiry_secs : ℕ
  pub fail_open : Bool
  pub bind_ip : Bool
  pub cookie_secure : CookieSecure

-- The library's conversions.
pub record Conversions : Type 0 where
  pub from_utf8 : List ℕ → Option Text
  pub to_lowercase : Text → Text
  pub ip_to_string : IpAddr → Text
  pub parse_ip : Text → Option IpAddr

-- An array with the number of its bytes that are used.
pub record Stored : Type 0 where
  pub bytes : List ℕ
  pub len : ℕ

pub record CaptchaPostContext : Type 0 where
  pub magic : ℕ
  pub client_ip : Stored
  pub provider : CaptchaProvider
  pub secret_key : Stored
  pub site_key : Stored
  pub signing_key : List ℕ
  pub cookie_name : Stored
  pub expiry_secs : ℕ
  pub bind_ip : Bool
  pub fail_open : Bool
  pub cookie_secure : CookieSecure
  pub stored_result : ℕ

-- A text in an array of a size: what does not fit is cut off.
unfoldable pub store : ℕ → Text → Stored
unfolding utf8
store size text =
    let len = min (length (utf8 text)) size in
    record { bytes = take len (utf8 text) ++ replicate (size - len) 0; len = len }

unfoldable pub from_config : Conversions → CaptchaConfig → IpAddr → CaptchaPostContext
unfolding store
from_config std config client_ip = record {
  magic = captcha_post_ctx_magic;
  client_ip = store 64 (std.ip_to_string client_ip);
  provider = config.provider;
  secret_key = store 256 config.secret_key;
  site_key = store 256 config.site_key;
  signing_key = config.signing_key;
  cookie_name = store 64 config.cookie_name;
  expiry_secs = config.expiry_secs;
  bind_ip = config.bind_ip;
  fail_open = config.fail_open;
  cookie_secure = config.cookie_secure;
  stored_result = 0;
}

abbrev pub or_fallback : Text → Option Text → Text
or_fallback fallback none = fallback
or_fallback fallback (some t) = t

unfoldable pub bounded_str : Conversions → Stored → Text → Text
bounded_str std s fallback =
    or_fallback fallback (std.from_utf8 (take (min s.len (length s.bytes)) s.bytes))

abbrev pub client_ip_str : Conversions → CaptchaPostContext → Text
client_ip_str std ctx = bounded_str std ctx.client_ip (codes "unknown")

unfoldable pub to_config : Conversions → CaptchaPostContext → CaptchaConfig
unfolding bounded_str
to_config std ctx = record {
  provider = ctx.provider;
  site_key = bounded_str std ctx.site_key [];
  secret_key = bounded_str std ctx.secret_key [];
  signing_key = ctx.signing_key;
  cookie_name = bounded_str std ctx.cookie_name (codes "crowdsec_captcha");
  expiry_secs = ctx.expiry_secs;
  fail_open = ctx.fail_open;
  bind_ip = ctx.bind_ip;
  cookie_secure = ctx.cookie_secure;
}

unfoldable pub store_result : HandlerResult → CaptchaPostContext → CaptchaPostContext
unfolding encode
store_result result ctx = record ctx { stored_result = encode result }

unfoldable pub take_result : CaptchaPostContext → Option HandlerResult
unfolding decode
take_result ctx = decode (ctx.stored_result)

-- `CaptchaPostContext::finish`: the context, and what becomes of the request.
unfoldable pub finish : HandlerResult → CaptchaPostContext → CaptchaPostContext × Action
unfolding store_result
finish HandlerResult.done ctx = (ctx, left_alone)
finish HandlerResult.body_read_pending ctx = (ctx, left_alone)
finish HandlerResult.declined ctx = (store_result HandlerResult.declined ctx, finalize_allow)
finish HandlerResult.error ctx = (store_result HandlerResult.error ctx, finalize 403)
finish HandlerResult.forbidden ctx = (store_result HandlerResult.forbidden ctx, finalize 403)

abbrev or_pending : Option HandlerResult → Option HandlerResult
or_pending none = some HandlerResult.body_read_pending
or_pending (some r) = some r

-- The slot of the request holds this context, if any.
unfoldable pub resume_body_read : Option CaptchaPostContext → Option HandlerResult
unfolding take_result
resume_body_read none = none
resume_body_read (some ctx) =
    if not (ctx.magic == captcha_post_ctx_magic) then none else or_pending (take_result ctx)

-- The slot after the call, whether there was memory for the context, and how the reading started.
unfoldable pub initiate_body_read :
    Conversions
    → CaptchaConfig
    → IpAddr
    → Bool
    → ReadResult
    → Option CaptchaPostContext
    → Option CaptchaPostContext × HandlerResult
unfolding from_config finish_phase_body_read
initiate_body_read std config client_ip false rc slot = (slot, HandlerResult.error)
initiate_body_read std config client_ip true rc slot = (
  some (from_config std config client_ip),
  if finish_phase_body_read rc then HandlerResult.body_read_pending else HandlerResult.error,
)

-- The bytes of the header, where it is there.
unfoldable pub is_form_urlencoded : Conversions → Option (List ℕ) → Bool
unfolding starts_with
is_form_urlencoded std none = false
is_form_urlencoded std (some []) = false
is_form_urlencoded std (some (b ∷ bytes)) = elim (std.from_utf8 (b ∷ bytes)) [
  | none ↦ false
  | some t ↦ starts_with (codes "application/x-www-form-urlencoded") (std.to_lowercase t)
]

abbrev pub max_captcha_body_size : ℕ
max_captcha_body_size = 64 * 1024

-- A negative length is none.
unfoldable pub is_body_size_acceptable : Option ℕ → Bool
is_body_size_acceptable none = false
is_body_size_acceptable (some n) = leb n max_captcha_body_size
