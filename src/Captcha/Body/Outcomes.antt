-- ===== src/Captcha/Body/Outcomes.antt =====
-- What the callbacks may do to a request: the ways in, and the headers that they send.
use ngx_http_crowdsec_module.Base.{
  ◌≡◌, refl, sym, subst, false≢true, ◌∙◌, ◌⊎◌, inl, inr, Bool, true, false, ◌&&◌, ◌||◌, Option,
  none, some, [], ◌∷◌, any, bytes_eq, arith, ◌==◌, Bool-cases,
}
use ngx_http_crowdsec_module.Base.Text.{Text, codes}
use ngx_http_crowdsec_module.Captcha.Body.{
  Conversions, CaptchaPostContext, client_ip_str, to_config, finish,
}
use ngx_http_crowdsec_module.Captcha.Body.Flow.{
  Ended, Now, on_context, on_ip, on_template, on_response, on_body, on_result, send_error,
  captcha_body_handler, complete_verification, is_outage,
}
use ngx_http_crowdsec_module.Captcha.Body.Pages.{Response, Visit, error_page}
use ngx_http_crowdsec_module.Captcha.Form.{
  VerifyResult, success, failed, error, VerifyError, network_error, timed_out, provider_error,
  invalid_response,
}
use ngx_http_crowdsec_module.Captcha.Jwt.{Crypto}
use ngx_http_crowdsec_module.Net.{IpAddr}
use ngx_http_crowdsec_module.RequestBody.{
  BodyExtractResult, body, unreadable, too_large, Action, finalize_allow, captcha_post_ctx_magic,
}
use ngx_http_crowdsec_module.Template.{Template}

abbrev is_cookie : Text × Text → Bool
is_cookie (name, value) = bytes_eq name (codes "Set-Cookie")

abbrev pub sets_cookie : Response → Bool
sets_cookie r = any is_cookie r.headers

abbrev pub is_allow : Action → Bool
is_allow finalize_allow = true
is_allow _ = false

-- The request goes on, or a session is opened.
abbrev pub lets_in : Ended → Bool
lets_in e = is_allow e.action || any sets_cookie e.sent

error_page-plain :
    (std : Conversions) (v : Visit) (ctx : CaptchaPostContext) (t : Template) (ip : IpAddr)
    (message : Text)
    → lets_in (send_error std v ctx t ip message) ≡ false
unfolding error_page finish bytes_eq
error_page-plain std v ctx t ip message = refl

-- What the common start of the callbacks passes on.
record Opened (std : Conversions) (v : Visit) (slot : Option CaptchaPostContext)
    (next : CaptchaPostContext → Template → IpAddr → Ended) : Type 0 where
  ctx : CaptchaPostContext
  held : slot ≡ some ctx
  t : Template
  ip : IpAddr
  let_in : lets_in (next ctx t ip) ≡ true

on_ip-Opened :
    (std : Conversions) (v : Visit) (ctx : CaptchaPostContext)
    (next : CaptchaPostContext → Template → IpAddr → Ended) (o : Option IpAddr)
    (ot : Option Template)
    → lets_in (on_ip ctx o (λ ip. on_template ctx ot (λ t. next ctx t ip))) ≡ true
    → Opened std v (some ctx) next
unfolding finish
on_ip-Opened std v ctx next none ot h = absurd (ground arith)
on_ip-Opened std v ctx next (some ip) none h = absurd (ground arith)
on_ip-Opened std v ctx next (some ip) (some t) h = record {
  ctx = ctx;
  held = refl;
  t = t;
  ip = ip;
  let_in = h;
}

on_context-Opened :
    (std : Conversions) (v : Visit) (next : CaptchaPostContext → Template → IpAddr → Ended)
    (slot : Option CaptchaPostContext)
    → lets_in (on_context std v next slot) ≡ true
    → Opened std v slot next
on_context-Opened std v next none h = absurd (ground arith)
on_context-Opened std v next (some ctx) h =
    elim (Bool-cases (ctx.magic == captcha_post_ctx_magic)) [
      | inr f ↦ absurd (false≢true (rw f at h))
      | inl m ↦
          on_ip-Opened std v ctx next (std.parse_ip (client_ip_str std ctx)) v.template (rw m at h)
    ]

-- The provider gave no verdict: it was not reached, it did not answer in time, or it answered with an
-- error status. An answer that cannot be read is not among these.
pub data NoVerdict : VerifyError → Type 0 where
  unreached : (reason : Text) → NoVerdict (network_error reason)
  late : NoVerdict timed_out
  refused : (reason : Text) → NoVerdict (provider_error reason)

is_outage-NoVerdict : (err : VerifyError) → is_outage err ≡ true → NoVerdict err
is_outage-NoVerdict (network_error reason) h = unreached reason
is_outage-NoVerdict timed_out h = late
is_outage-NoVerdict (provider_error reason) h = refused reason
is_outage-NoVerdict (invalid_response reason) h = absurd (false≢true h)

-- The provider has confirmed the answer; or it gave no verdict, and the configuration lets visitors
-- in then.
abbrev pub Earned : Conversions → Option CaptchaPostContext → VerifyResult → Type 0
Earned std slot result =
    (ctx : CaptchaPostContext) × (slot ≡ some ctx)
    × ((result ≡ success)
        ⊎ ((err : VerifyError) × (result ≡ error err)
            × NoVerdict err
            × ((to_config std ctx).fail_open ≡ true)))

on_result-Earned :
    (c : Crypto) (std : Conversions) (v : Visit) (now : Now) (result : VerifyResult)
    (ctx : CaptchaPostContext) (t : Template) (ip : IpAddr)
    → lets_in (on_result c std v now result ctx t ip) ≡ true
    → Earned std (some ctx) result
on_result-Earned c std v now success ctx t ip h = (ctx, refl, inl refl)
on_result-Earned c std v now (failed reason) ctx t ip h =
    absurd (false≢true (sym (error_page-plain std v ctx t ip _) ∙ h))
on_result-Earned c std v now (error err) ctx t ip h =
    elim (Bool-cases ((to_config std ctx).fail_open && is_outage err)) [
      | inl y ↦ (ctx, refl, inr (err, refl, is_outage-NoVerdict err (ground arith), ground arith))
      | inr n ↦ absurd (false≢true (sym (error_page-plain std v ctx t ip _) ∙ (rw n at h)))
    ]

-- Whatever was posted, the request goes on, or a cookie is set, after a verification only where
-- its context is there and the provider has confirmed the answer, or where the configuration lets
-- visitors in without a verdict and there was none: the provider was not reached, did not answer
-- in time, or answered with an error status, but not where its answer could not be read.
pub complete_verification-Earned :
    (c : Crypto) (std : Conversions) (v : Visit) (now : Now) (result : VerifyResult)
    (slot : Option CaptchaPostContext)
    → lets_in (complete_verification c std v now result slot) ≡ true
    → Earned std slot result
unfolding complete_verification
complete_verification-Earned c std v now result slot h =
    let o = on_context-Opened std v (on_result c std v now result) slot h in
    subst (λ s. Earned std s result) (sym o.held)
      (on_result-Earned c std v now result o.ctx o.t o.ip o.let_in)

on_response-shut :
    (std : Conversions) (v : Visit) (takes : Bool) (ctx : CaptchaPostContext) (t : Template)
    (ip : IpAddr) (response : Option Text)
    → lets_in (on_response std v takes ctx t ip response) ≡ false
on_response-shut std v takes ctx t ip none = error_page-plain std v ctx t ip _
on_response-shut std v true ctx t ip (some response) = refl
on_response-shut std v false ctx t ip (some response) = error_page-plain std v ctx t ip _

on_body-shut :
    (std : Conversions) (v : Visit) (takes : Bool) (ctx : CaptchaPostContext) (t : Template)
    (ip : IpAddr) (b : BodyExtractResult)
    → lets_in (on_body std v takes ctx t ip b) ≡ false
on_body-shut std v takes ctx t ip (body []) = error_page-plain std v ctx t ip _
on_body-shut std v takes ctx t ip (body (b ∷ bytes)) = on_response-shut std v takes ctx t ip _
on_body-shut std v takes ctx t ip unreadable = error_page-plain std v ctx t ip _
on_body-shut std v takes ctx t ip too_large = error_page-plain std v ctx t ip _

-- The callback that reads the body lets nobody in.
pub captcha_body_handler-shut :
    (std : Conversions) (v : Visit) (takes : Bool) (slot : Option CaptchaPostContext)
    → lets_in (captcha_body_handler std v takes slot) ≡ false
unfolding captcha_body_handler
captcha_body_handler-shut std v takes slot =
    elim (Bool-cases (lets_in (captcha_body_handler std v takes slot))) [
      | inr f ↦ f
      | inl h ↦
          let next = λ (ctx : CaptchaPostContext) (t : Template) (ip : IpAddr).
            on_body std v takes ctx t ip v.extracted in
          let o = on_context-Opened std v next slot h in
          absurd (false≢true (sym (on_body-shut std v takes o.ctx o.t o.ip v.extracted) ∙ o.let_in))
    ]
