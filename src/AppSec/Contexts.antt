-- ===== src/AppSec/Contexts.antt =====
-- The context of an inspection: what goes in comes out, and a result that is stored is the one that the
-- phase returns when nginx runs it again.
use ngx_http_crowdsec_module.AppSec.{
  AppSecFailureAction, passthrough, deny, AppSecLoc, new_context, failure_action_of, client_ip_of,
  failure_byte, byte_of, AppSecBodyContext, take_result, store_result, AppSecConfig, Client,
}
use ngx_http_crowdsec_module.AppSec.Response.{Around}
use ngx_http_crowdsec_module.AppSec.Inspect.{Machine, inspect, stays, resume_body_read}
use ngx_http_crowdsec_module.AppSec.Callbacks.{finish, is_open}
use ngx_http_crowdsec_module.Base.{
  ◌≡◌, refl, Bool, true, false, not, Option, none, some, [], ◌==◌, if◌then◌else◌, length, arith,
}
use ngx_http_crowdsec_module.Handler.{HandlerResult}
use ngx_http_crowdsec_module.Net.{IpAddr}
use ngx_http_crowdsec_module.RequestBody.{BodyRequest, appsec_body_ctx_magic}
use ngx_http_crowdsec_module.Base.{◌-◌, ◌≤◌, min, replicate, take-take-append}
use ngx_http_crowdsec_module.Base.Text.{utf8}
use ngx_http_crowdsec_module.Captcha.Body.{Conversions}
use ngx_http_crowdsec_module.Usage.Keys.{take-all}

-- The callback reads the address, the flags and the action that the phase has stored; the text of the
-- address has at most 63 bytes, and is what the decoder and the parser undo.
pub client_ip_of-new_context :
    (std : Conversions) (ip : IpAddr) (fa : AppSecFailureAction)
    (internal_challenge bot_challenge shm_ban : Bool)
    → length (utf8 (std.ip_to_string ip)) ≤ 63
    → std.from_utf8 (utf8 (std.ip_to_string ip)) ≡ some (std.ip_to_string ip)
    → std.parse_ip (std.ip_to_string ip) ≡ some ip
    → let ctx = new_context (std.ip_to_string ip) fa internal_challenge bot_challenge shm_ban in
      (client_ip_of std ctx ≡ some ip)
      × (failure_action_of ctx ≡ fa)
      × (not (ctx.internal_challenge == 0) ≡ internal_challenge)
      × (not (ctx.shm_ban == 0) ≡ shm_ban)
      × (take_result ctx ≡ none)
unfolding client_ip_of new_context failure_action_of take_result
client_ip_of-new_context std ip fa internal_challenge bot_challenge shm_ban h back parses =
    let text = utf8 (std.ip_to_string ip) in
    let e : min (length text) 63 ≡ length text = omega arith in
    (
      rw
          (
            e,
            take-all (length text) text (omega arith),
            take-take-append text (replicate (64 - length text) 0) (length text) refl,
            back,
          )
          parses,
      action fa,
      flag internal_challenge,
      flag shm_ban,
      refl,
    )
  where
    action : (fa : AppSecFailureAction) → (if failure_byte fa == 1 then deny else passthrough) ≡ fa
    action passthrough = refl
    action deny = refl

    flag : (b : Bool) → not (byte_of b == 0) ≡ b
    flag true = refl
    flag false = refl

finish_slot :
    (result : HandlerResult) (ctx : AppSecBodyContext)
    → is_open result ≡ true
    → (finish result (some ctx)).0 ≡ some (store_result result ctx)
unfolding finish
finish_slot result ctx open_result = rw open_result refl

resume-store_result :
    (result : HandlerResult) (ctx : AppSecBodyContext)
    → ctx.magic ≡ appsec_body_ctx_magic
    → is_open result ≡ true
    → resume_body_read (some (store_result result ctx)) ≡ some result
unfolding resume_body_read store_result
resume-store_result HandlerResult.declined ctx e h = rw e refl
resume-store_result HandlerResult.forbidden ctx e h = rw e refl
resume-store_result HandlerResult.error ctx e h = rw e refl
resume-store_result HandlerResult.done ctx e h = absurd (ground arith)
resume-store_result HandlerResult.body_read_pending ctx e h = absurd (ground arith)

inspect-resume :
    (m : Machine) (a : Around) (l : AppSecLoc) (config : Option AppSecConfig) (peer : Option IpAddr)
    (r : Client) (b : BodyRequest) (is_subrequest shm_ban : Bool) (slot : Option AppSecBodyContext)
    (result : HandlerResult)
    → resume_body_read slot ≡ some result
    → inspect m a l config peer r b is_subrequest shm_ban slot ≡ stays slot ([], result)
unfolding inspect
inspect-resume m a l config peer r b is_subrequest shm_ban slot result e = rw (e, inspect) refl

-- A result that a callback of the inspection ends with, and that leaves the request open, is what
-- the phase returns when nginx runs it again, without another inspection.
pub inspect-finish :
    (m : Machine) (a : Around) (l : AppSecLoc) (config : Option AppSecConfig) (peer : Option IpAddr)
    (r : Client) (b : BodyRequest) (is_subrequest shm_ban : Bool) (ctx : AppSecBodyContext)
    (result : HandlerResult)
    → ctx.magic ≡ appsec_body_ctx_magic
    → is_open result ≡ true
    → inspect m a l config peer r b is_subrequest shm_ban (finish result (some ctx)).0
      ≡ stays (some (store_result result ctx)) ([], result)
inspect-finish m a l config peer r b is_subrequest shm_ban ctx result e h =
    rw (finish_slot result ctx h) (
      inspect-resume m a l config peer r b is_subrequest shm_ban (some (store_result result ctx))
        result (resume-store_result result ctx e h))
