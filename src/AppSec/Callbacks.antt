-- ===== src/AppSec/Callbacks.antt =====
-- src/appsec.rs: the callback that has the body of a request, and the completion of a call. What they
-- leave behind is the slot of the request, a verdict, and what becomes of the request.
use ngx_http_crowdsec_module.AppSec.{
  AppSecFailureAction, AppSecLoc, AppSecConfig, AppSecBodyContext, failure_action_of, client_ip_of,
  store_result, Client,
}
use ngx_http_crowdsec_module.AppSec.Response.{
  Around, AppSecResponse, fail_closed, apply_appsec_response, Verdict, no_page,
  finalize_async_result,
}
use ngx_http_crowdsec_module.Base.{
  Bool, true, false, not, Option, none, some, [], ◌∷◌, ◌==◌, if◌then◌else◌,
}
use ngx_http_crowdsec_module.Handler.{HandlerResult, counted, is_on}
use ngx_http_crowdsec_module.Net.{IpAddr}
use ngx_http_crowdsec_module.RequestBody.{
  appsec_body_ctx_magic, BodyRequest, BodyExtractResult, body, extract_request_body_limited, Action,
  left_alone, finalize,
}
use ngx_http_crowdsec_module.Shm.Metrics.{appsec_error}
use ngx_http_crowdsec_module.AppSec.Inspect.{
  Machine, Step, stays, holds_context, stored, inspect_with_body,
  inspect_or_drop_unforwardable_body, on_extracted,
}
use ngx_http_crowdsec_module.AppSec.Found.{Inspected}

-- `AppSecBodyContext::finish`, and the end of a completion: the result is stored for the phase that runs
-- again, unless a response is sent or a call is under way.
abbrev pub is_open : HandlerResult → Bool
is_open HandlerResult.done = false
is_open HandlerResult.body_read_pending = false
is_open _ = true

unfoldable pub finish : HandlerResult → Option AppSecBodyContext → Option AppSecBodyContext × Action
unfolding store_result finalize_async_result
finish result slot =
    if is_open result
    then (stored slot result, finalize_async_result result)
    else (slot, left_alone)

abbrev pub finish_step : Step → Step × Action
finish_step s = let (slot, action) = finish s.outcome.1 s.slot in (record s { slot = slot }, action)

abbrev with_loc : Option AppSecBodyContext → Option AppSecLoc → (AppSecLoc → Step) → Step × Action
with_loc slot none next = finish_step (stays slot ([], HandlerResult.forbidden))
with_loc slot (some l) next = finish_step (next l)

-- With a body the location is looked up last, and an error is counted where there is none.
abbrev on_body :
    Machine
    → Around
    → Option AppSecLoc
    → Client
    → Inspected
    → Bool
    → AppSecBodyContext
    → BodyExtractResult
    → Step × Action
on_body m a none r i shm_ban ctx (body bytes) =
    finish_step (stays (some ctx) (counted appsec_error ∷ [], HandlerResult.forbidden))
on_body m a loc r i shm_ban ctx extracted =
    with_loc (some ctx) loc (λ l. on_extracted m a l r i shm_ban (some ctx) extracted)

abbrev on_ip :
    Machine
    → Around
    → Option AppSecLoc
    → Client
    → BodyRequest
    → AppSecConfig
    → AppSecBodyContext
    → Option IpAddr
    → Step × Action
on_ip m a loc r b config ctx none =
    with_loc (some ctx) loc (λ l. stays (some ctx) (fail_closed a l none (failure_action_of ctx)))
on_ip m a loc r b config ctx (some ip) =
    let i : Inspected = record {
      config = config;
      ip = ip;
      failure_action = failure_action_of ctx;
      internal_challenge = not (ctx.internal_challenge == 0);
    } in
    on_body m a loc r i (not (ctx.shm_ban == 0)) ctx
      (extract_request_body_limited m.files b config.max_body_size false)

abbrev on_config :
    Machine
    → Around
    → Option AppSecLoc
    → Client
    → BodyRequest
    → Option AppSecConfig
    → AppSecBodyContext
    → Step × Action
on_config m a loc r b none ctx =
    with_loc (some ctx) loc
      (λ l. stays (some ctx) (fail_closed a l (client_ip_of m.std ctx) (failure_action_of ctx)))
on_config m a loc r b (some config) ctx = on_ip m a loc r b config ctx (client_ip_of m.std ctx)

abbrev no_context : Option AppSecBodyContext → Step × Action
no_context slot = (stays slot ([], HandlerResult.error), finalize 500)

-- The callback, with the configuration of the request's location where there is one.
unfoldable pub appsec_body_handler :
    Machine
    → Around
    → Option AppSecLoc
    → Option AppSecConfig
    → Client
    → BodyRequest
    → Option AppSecBodyContext
    → Step × Action
unfolding client_ip_of failure_action_of extract_request_body_limited
    inspect_or_drop_unforwardable_body inspect_with_body finish fail_closed
appsec_body_handler m a loc config r b none = no_context none
appsec_body_handler m a loc config r b (some ctx) =
    if not (ctx.magic == appsec_body_ctx_magic)
    then no_context (some ctx)
    else on_config m a loc r b config ctx

-- What a completion leaves: the slot, the verdict, and what becomes of the request.
pub record Completed : Type 0 where
  pub slot : Option AppSecBodyContext
  pub verdict : Verdict
  pub action : Action

-- What the call gives: an answer with a status that the client takes or 403, or none.
abbrev pub verdict_of :
    Around → AppSecLoc → IpAddr → AppSecFailureAction → Bool → Option AppSecResponse → Verdict
verdict_of a l ip failure_action shm_ban none = no_page (fail_closed a l (some ip) failure_action)
verdict_of a l ip failure_action shm_ban (some response) =
    apply_appsec_response a l ip response failure_action (is_on l.bot_challenge_enabled) shm_ban

unfoldable pub complete :
    Around
    → AppSecLoc
    → IpAddr
    → AppSecFailureAction
    → Bool
    → Option AppSecResponse
    → Option AppSecBodyContext
    → Completed
unfolding fail_closed apply_appsec_response finish finalize_async_result
complete a l ip failure_action shm_ban response slot =
    if not (holds_context slot)
    then (let verdict = no_page (fail_closed a l (some ip) failure_action) in
        record { slot = slot; verdict = verdict; action = finalize_async_result verdict.0.1 })
    else let verdict = verdict_of a l ip failure_action shm_ban response in
      let (slot', action) = finish verdict.0.1 slot in
      record { slot = slot'; verdict = verdict; action = action }
