-- ===== src/AppSec/Inspect.antt =====
-- src/appsec.rs: `inspect` in the PRECONTENT phase. Between it and the callbacks the request's slot holds
-- the context. Inputs are whether there is memory for a context, how the reading of a body starts, and
-- whether the thread pool takes the call. The bound on a body is below 2^63.
use ngx_http_crowdsec_module.AppSec.Found.{Inspected, appsec_context}
use ngx_http_crowdsec_module.AppSec.{
  deny, AppSecLoc, AppSecConfig, AppSecBodyContext, new_context, store_result, take_result, Client,
  Call, prepare_appsec_request,
}
use ngx_http_crowdsec_module.AppSec.Response.{Around, fail_closed}
use ngx_http_crowdsec_module.Base.{
  ℕ, Bool, true, false, not, ◌&&◌, ◌⊎◌, inl, inr, Option, none, some, List, [], ◌∷◌, ltb, ◌==◌,
  if◌then◌else◌,
}
use ngx_http_crowdsec_module.Base.Text.{Text}
use ngx_http_crowdsec_module.Captcha.Body.{Conversions}
use ngx_http_crowdsec_module.Handler.{HandlerResult, counted, Outcome, is_on}
use ngx_http_crowdsec_module.Net.{IpAddr}
use ngx_http_crowdsec_module.RequestBody.{
  appsec_body_ctx_magic, BodyRequest, BodyExtractResult, body, unreadable, too_large, Files,
  extract_request_body_limited, has_request_body, request_body_buffered, ReadResult, special,
  finish_phase_body_read,
}
use ngx_http_crowdsec_module.Shm.Metrics.{appsec_request}

-- What nginx and the thread pool do during a call: memory for a context, how a reading of the body
-- starts, and whether a call is taken.
pub record Machine : Type 0 where
  pub std : Conversions
  pub files : Files
  pub user_agent : Text
  pub allocates : Bool
  pub reading : ReadResult
  pub takes : Bool

-- A step of an inspection: the slot of the request, what is counted with the result, and the call that
-- was posted, with its body.
pub record Step : Type 0 where
  pub slot : Option AppSecBodyContext
  pub outcome : Outcome
  pub posted : Option (Call × Option (List ℕ))

abbrev pub stays : Option AppSecBodyContext → Outcome → Step
stays slot outcome = record { slot = slot; outcome = outcome; posted = none }

abbrev pub holds_context : Option AppSecBodyContext → Bool
holds_context none = false
holds_context (some ctx) = ctx.magic == appsec_body_ctx_magic

abbrev new_slot : Machine → AppSecLoc → Inspected → Bool → Option AppSecBodyContext
new_slot m l i shm_ban = some (
    new_context (m.std.ip_to_string i.ip) i.failure_action i.internal_challenge
      (is_on l.bot_challenge_enabled) shm_ban)

abbrev is_done : HandlerResult → Bool
is_done HandlerResult.done = true
is_done _ = false

abbrev pub stored : Option AppSecBodyContext → HandlerResult → Option AppSecBodyContext
stored none result = none
stored (some ctx) result = some (store_result result ctx)

abbrev has_bytes : Option (List ℕ) → Bool
has_bytes none = false
has_bytes (some _) = true

-- The call is posted, or the request is dealt with as after a failure.
abbrev pub post_call :
    Machine
    → Around
    → AppSecLoc
    → Client
    → Inspected
    → Option (List ℕ)
    → Option AppSecBodyContext
    → Step
post_call m a l r i bytes slot =
    if m.takes
    then record {
      slot = slot;
      outcome = (counted appsec_request ∷ [], HandlerResult.body_read_pending);
      posted = some (
        prepare_appsec_request m.user_agent i.config (m.std.ip_to_string i.ip) r (has_bytes bytes),
        bytes,
      );
    }
    else let failed = fail_closed a l (some i.ip) i.failure_action in
      stays (if is_done failed.1 then slot else stored slot failed.1) failed

unfoldable pub inspect_with_body :
    Machine
    → Around
    → AppSecLoc
    → Client
    → Inspected
    → Option (List ℕ)
    → Bool
    → Option AppSecBodyContext
    → Step
unfolding new_context store_result prepare_appsec_request fail_closed
inspect_with_body m a l r i bytes shm_ban slot =
    if holds_context slot
    then post_call m a l r i bytes slot
    else if not m.allocates
    then stays slot (fail_closed a l (some i.ip) i.failure_action)
    else post_call m a l r i bytes (new_slot m l i shm_ban)

unfoldable pub inspect_or_drop_unforwardable_body :
    Machine → Around → AppSecLoc → Client → Inspected → Bool → Option AppSecBodyContext → Step
unfolding inspect_with_body fail_closed
inspect_or_drop_unforwardable_body m a l r i shm_ban slot =
    if i.config.drop_unreadable_body
    then stays slot (fail_closed a l (some i.ip) deny)
    else inspect_with_body m a l r i none shm_ban slot

abbrev pub on_extracted :
    Machine
    → Around
    → AppSecLoc
    → Client
    → Inspected
    → Bool
    → Option AppSecBodyContext
    → BodyExtractResult
    → Step
on_extracted m a l r i shm_ban slot (body bytes) =
    inspect_with_body m a l r i (some bytes) shm_ban slot
on_extracted m a l r i shm_ban slot unreadable =
    inspect_or_drop_unforwardable_body m a l r i shm_ban slot
on_extracted m a l r i shm_ban slot too_large =
    inspect_or_drop_unforwardable_body m a l r i shm_ban slot

abbrev pub is_special : ReadResult → Bool
is_special (special _) = true
is_special _ = false

-- A special response is one of status 300 or more.
unfoldable pub initiate_appsec_body_read :
    Machine → Around → AppSecLoc → Inspected → Bool → Option AppSecBodyContext → Step
unfolding new_context finish_phase_body_read fail_closed
initiate_appsec_body_read m a l i shm_ban slot =
    if not m.allocates
    then stays slot (fail_closed a l (some i.ip) i.failure_action)
    else let slot' = new_slot m l i shm_ban in
      if finish_phase_body_read m.reading
      then stays slot' ([], HandlerResult.body_read_pending)
      else if is_special m.reading
      then stays slot' ([], HandlerResult.forbidden)
      else stays slot' (fail_closed a l (some i.ip) i.failure_action)

abbrev pub exceeds : ℕ → Option ℕ → Bool
exceeds bound none = false
exceeds bound (some n) = ltb bound n

unfoldable pub inspect_request_body :
    Machine
    → Around
    → AppSecLoc
    → Client
    → BodyRequest
    → Inspected
    → Bool
    → Option AppSecBodyContext
    → Step
unfolding request_body_buffered extract_request_body_limited initiate_appsec_body_read
    inspect_or_drop_unforwardable_body inspect_with_body
inspect_request_body m a l r b i shm_ban slot =
    if request_body_buffered b
    then on_extracted m a l r i shm_ban slot
        (extract_request_body_limited m.files b i.config.max_body_size false)
    else if exceeds i.config.max_body_size b.content_length_n
    then inspect_or_drop_unforwardable_body m a l r i shm_ban slot
    else initiate_appsec_body_read m a l i shm_ban slot

abbrev pub or_pending : Option HandlerResult → HandlerResult
or_pending none = HandlerResult.body_read_pending
or_pending (some result) = result

abbrev pub resumed : AppSecBodyContext → HandlerResult
resumed ctx = or_pending (take_result ctx)

unfoldable pub resume_body_read : Option AppSecBodyContext → Option HandlerResult
unfolding take_result
resume_body_read none = none
resume_body_read (some ctx) =
    if not (ctx.magic == appsec_body_ctx_magic) then none else some (resumed ctx)

abbrev pub fresh_inspection :
    Machine
    → Around
    → AppSecLoc
    → Client
    → BodyRequest
    → Bool
    → Bool
    → Option AppSecBodyContext
    → Inspected ⊎ Outcome
    → Step
fresh_inspection m a l r b is_subrequest shm_ban slot (inr outcome) = stays slot outcome
fresh_inspection m a l r b is_subrequest shm_ban slot (inl i) =
    if not is_subrequest && has_request_body b
    then inspect_request_body m a l r b i shm_ban slot
    else inspect_with_body m a l r i none shm_ban slot

unfoldable pub inspect :
    Machine
    → Around
    → AppSecLoc
    → Option AppSecConfig
    → Option IpAddr
    → Client
    → BodyRequest
    → Bool
    → Bool
    → Option AppSecBodyContext
    → Step
unfolding resume_body_read appsec_context has_request_body inspect_request_body inspect_with_body
inspect m a l config ip r b is_subrequest shm_ban slot = elim (resume_body_read slot) [
  | some result ↦ stays slot ([], result)
  | none ↦
      fresh_inspection m a l r b is_subrequest shm_ban slot (appsec_context a l config ip r.uri)
]
