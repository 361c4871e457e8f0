-- ===== src/Captcha/Body/Flow.antt =====
-- The callbacks of src/captcha/body.rs that read a posted captcha and act on its verification. The clock
-- and the nonce are inputs, and whether the thread pool takes the verification.
use ngx_http_crowdsec_module.Captcha.Body.Pages.{
  Response, Visit, captcha_return_uri, error_page, success_redirect,
}
use ngx_http_crowdsec_module.Base.{
  ℕ, Bool, true, false, not, ◌&&◌, inl, inr, Option, none, some, List, [], ◌∷◌, ◌++◌, ◌==◌,
  if◌then◌else◌,
}
use ngx_http_crowdsec_module.Base.Text.{Text, codes}
use ngx_http_crowdsec_module.Captcha.Body.{
  Conversions, CaptchaPostContext, client_ip_str, to_config, finish,
}
use ngx_http_crowdsec_module.Captcha.Config.{CaptchaProvider}
use ngx_http_crowdsec_module.Captcha.Cookie.{should_cookie_be_secure}
use ngx_http_crowdsec_module.Captcha.Form.{
  VerifyError, network_error, invalid_response, provider_error, timed_out, VerifyResult, success,
  failed, error, parse_captcha_response,
}
use ngx_http_crowdsec_module.Captcha.Jwt.{Crypto, Result, new_claims, create_token}
use ngx_http_crowdsec_module.Handler.{HandlerResult}
use ngx_http_crowdsec_module.Net.{IpAddr}
use ngx_http_crowdsec_module.RequestBody.{
  captcha_post_ctx_magic, BodyExtractResult, body, Action, left_alone, finalize,
}
use ngx_http_crowdsec_module.Template.{Template}

-- What is to be verified: the provider, the secret, the answer and the address.
pub record Verification : Type 0 where
  pub provider : CaptchaProvider
  pub secret : Text
  pub response : Text
  pub remote_ip : Text

-- How a callback ends: the context in the slot, what was sent, what becomes of the request, and what
-- was posted to the thread pool.
pub record Ended : Type 0 where
  pub slot : Option CaptchaPostContext
  pub sent : List Response
  pub action : Action
  pub posted : Option Verification

abbrev pub ended : List Response → HandlerResult → CaptchaPostContext → Ended
ended sent result ctx =
    let (ctx', action) = finish result ctx in
    record { slot = some ctx'; sent = sent; action = action; posted = none }

-- What both callbacks do at first.
abbrev pub on_template : CaptchaPostContext → Option Template → (Template → Ended) → Ended
on_template ctx none next = ended [] HandlerResult.error ctx
on_template ctx (some t) next = next t

abbrev pub on_ip : CaptchaPostContext → Option IpAddr → (IpAddr → Ended) → Ended
on_ip ctx none next = ended [] HandlerResult.forbidden ctx
on_ip ctx (some ip) next = next ip

abbrev pub no_context : Option CaptchaPostContext → Ended
no_context slot = record { slot = slot; sent = []; action = finalize 500; posted = none }

abbrev pub on_context :
    Conversions
    → Visit
    → (CaptchaPostContext → Template → IpAddr → Ended)
    → Option CaptchaPostContext
    → Ended
on_context std v next none = no_context none
on_context std v next (some ctx) =
    if not (ctx.magic == captcha_post_ctx_magic)
    then no_context (some ctx)
    else on_ip ctx (std.parse_ip (client_ip_str std ctx))
        (λ ip. on_template ctx v.template (λ t. next ctx t ip))

abbrev pub send_error : Conversions → Visit → CaptchaPostContext → Template → IpAddr → Text → Ended
send_error std v ctx t ip message =
    ended (error_page std t (to_config std ctx) ip (captcha_return_uri v.unparsed_uri) message ∷ [])
      HandlerResult.done ctx

abbrev pub on_response :
    Conversions → Visit → Bool → CaptchaPostContext → Template → IpAddr → Option Text → Ended
on_response std v takes ctx t ip none =
    send_error std v ctx t ip (codes "Captcha response not found. Please complete the challenge.")
on_response std v takes ctx t ip (some response) =
    if takes
    then record {
      slot = some ctx;
      sent = [];
      action = left_alone;
      posted = some (record {
        provider = (to_config std ctx).provider;
        secret = (to_config std ctx).secret_key;
        response = response;
        remote_ip = client_ip_str std ctx;
      });
    }
    else send_error std v ctx t ip (codes "Verification service unavailable. Please try again.")

abbrev pub on_body :
    Conversions → Visit → Bool → CaptchaPostContext → Template → IpAddr → BodyExtractResult → Ended
on_body std v takes ctx t ip (body []) =
    send_error std v ctx t ip (codes "No form data received. Please try again.")
on_body std v takes ctx t ip (body (b ∷ bytes)) =
    on_response std v takes ctx t ip
      (parse_captcha_response (std.from_utf8 (b ∷ bytes)) (to_config std ctx).provider)
on_body std v takes ctx t ip _ =
    send_error std v ctx t ip (codes "Request too large or unreadable.")

-- `takes` says whether the thread pool takes the verification.
unfoldable pub captcha_body_handler : Conversions → Visit → Bool → Option CaptchaPostContext → Ended
unfolding to_config finish error_page captcha_return_uri parse_captcha_response
captcha_body_handler std v takes slot =
    on_context std v (λ ctx t ip. on_body std v takes ctx t ip v.extracted) slot

-- The errors on which a failing provider lets the visitor in.
abbrev pub is_outage : VerifyError → Bool
is_outage (network_error _) = true
is_outage timed_out = true
is_outage (provider_error _) = true
is_outage (invalid_response _) = false

-- The clock and the bytes of the nonce, and the digits that `format!` prints.
pub record Now : Type 0 where
  pub secs : ℕ
  pub random : List ℕ
  pub decimal : ℕ → Text

abbrev pub redirected :
    Conversions → Visit → Now → CaptchaPostContext → Template → IpAddr → Result Text → Ended
redirected std v now ctx t ip (inr e) =
    send_error std v ctx t ip (codes "Internal error. Please try again.")
redirected std v now ctx t ip (inl token) =
    let config = to_config std ctx in
    let is_secure = should_cookie_be_secure config.cookie_secure v.ssl v.from_proxy v.headers in
    ended
      (success_redirect now.decimal config is_secure token (captcha_return_uri v.unparsed_uri) ∷ [])
      HandlerResult.done ctx

abbrev pub on_result :
    Crypto
    → Conversions
    → Visit
    → Now
    → VerifyResult
    → CaptchaPostContext
    → Template
    → IpAddr
    → Ended
on_result c std v now success ctx t ip =
    let config = to_config std ctx in
    let ip_for_token = if config.bind_ip then some (client_ip_str std ctx) else none in
    redirected std v now ctx t ip (
      create_token c config.signing_key (
        new_claims now.secs now.random ip_for_token config.expiry_secs
          (some (captcha_return_uri v.unparsed_uri))))
on_result c std v now (failed reason) ctx t ip =
    send_error std v ctx t ip
      (codes "Verification failed: " ++ reason ++ codes ". Please try again.")
on_result c std v now (error err) ctx t ip =
    if (to_config std ctx).fail_open && is_outage err
    then ended [] HandlerResult.declined ctx
    else send_error std v ctx t ip (codes "Verification service unavailable. Please try again.")

unfoldable pub complete_verification :
    Crypto → Conversions → Visit → Now → VerifyResult → Option CaptchaPostContext → Ended
unfolding to_config finish error_page success_redirect captcha_return_uri new_claims create_token
    should_cookie_be_secure
complete_verification c std v now result slot = on_context std v (on_result c std v now result) slot
