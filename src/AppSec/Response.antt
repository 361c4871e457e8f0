-- ===== src/AppSec/Response.antt =====
-- src/appsec.rs: what follows an answer of the AppSec server, or the lack of one. The responses that
-- nginx sends, and the statuses that `HTTPStatus::from_u16` takes, are inputs.
use ngx_http_crowdsec_module.AppSec.{AppSecFailureAction, passthrough, deny, AppSecLoc, safe_header}
use ngx_http_crowdsec_module.Base.{
  ℕ, Bool, true, false, not, ◌&&◌, ◌||◌, Option, none, some, List, [], ◌∷◌, ◌++◌, ◌==◌,
  if◌then◌else◌, length, any, bytes_eq,
}
use ngx_http_crowdsec_module.Base.Text.{Text, codes}
use ngx_http_crowdsec_module.Handler.{
  HandlerResult, Outside, dropped, counted, Outcome, after, handle_ban_decision, is_ban,
}
use ngx_http_crowdsec_module.Net.{IpAddr}
use ngx_http_crowdsec_module.RequestBody.{Action, finalize_allow, left_alone, finalize}
use ngx_http_crowdsec_module.Shm.Lookup.{lookup_ip}
use ngx_http_crowdsec_module.Shm.Metrics.{appsec_block, appsec_error}
use ngx_http_crowdsec_module.Shm.State.{ShmData}

-- The rows of `user_headers` come in no specified order.
pub record Envelope : Type 0 where
  pub action : Text
  pub http_status : ℕ
  pub user_body_content : Text
  pub user_headers : List (Text × List Text)
  pub user_cookies : List Text

pub record AppSecResponse : Type 0 where
  pub status : ℕ
  pub envelope : Option Envelope

-- What stands outside of a verdict: the responses, the store and its second, the statuses that there
-- are, and whether the page of a challenge is sent.
pub record Around : Type 0 where
  pub o : Outside
  pub store : Option ShmData
  pub now : ℕ
  pub from_u16 : ℕ → Option ℕ
  pub sends_raw : Bool

abbrev pub is_block : HandlerResult → Bool
is_block HandlerResult.done = true
is_block HandlerResult.forbidden = true
is_block _ = false

abbrev pub counting_block : Outcome → Outcome
counting_block (es, result) =
    (es ++ (if is_block result then counted appsec_block ∷ [] else []), result)

unfoldable pub apply_appsec_ban_page : Around → AppSecLoc → Outcome
unfolding handle_ban_decision
apply_appsec_ban_page a l = counting_block (handle_ban_decision a.o l.loc)

abbrev denied : Around → AppSecLoc → Option IpAddr → Outcome
denied a l none = ([], HandlerResult.forbidden)
denied a l (some ip) = apply_appsec_ban_page a l

abbrev pub on_failure : Around → AppSecLoc → Option IpAddr → AppSecFailureAction → Outcome
on_failure a l ip passthrough = ([], HandlerResult.declined)
on_failure a l ip deny = denied a l ip

unfoldable pub fail_closed : Around → AppSecLoc → Option IpAddr → AppSecFailureAction → Outcome
unfolding apply_appsec_ban_page
fail_closed a l ip action = after (counted appsec_error ∷ []) (on_failure a l ip action)

unfoldable pub apply_shm_or_appsec_ban : Around → AppSecLoc → IpAddr → Outcome
unfolding apply_appsec_ban_page lookup_ip
apply_shm_or_appsec_ban a l ip =
    let lookup = lookup_ip a.store ip a.now in
    if lookup.found && is_ban lookup.decision_type
    then handle_ban_decision a.o l.loc
    else apply_appsec_ban_page a l

-- The page of a challenge.
pub record RawResponse : Type 0 where
  pub status : ℕ
  pub content : Text
  pub headers : List (Text × Text)

abbrev safe_values : Text → List Text → List (Text × Text)
safe_values name [] = []
safe_values name (value ∷ values) =
    if safe_header name value
    then (name, value) ∷ safe_values name values
    else safe_values name values

abbrev safe_rows : List (Text × List Text) → List (Text × Text)
safe_rows [] = []
safe_rows ((name, values) ∷ rows) = safe_values name values ++ safe_rows rows

abbrev cookie_rows : List Text → List (Text × Text)
cookie_rows [] = []
cookie_rows (v ∷ cookies) =
    if any (λ c. c == 13 || c == 10) v
    then cookie_rows cookies
    else (codes "Set-Cookie", v) ∷ cookie_rows cookies

abbrev status_or_forbidden : Option ℕ → ℕ
status_or_forbidden none = 403
status_or_forbidden (some s) = s

unfoldable pub challenge_page : Around → Envelope → RawResponse
unfolding safe_header
challenge_page a e = record {
  status = status_or_forbidden (a.from_u16 (if e.http_status == 0 then 200 else e.http_status));
  content = e.user_body_content;
  headers = safe_rows e.user_headers ++ cookie_rows e.user_cookies;
}

-- A verdict: what is counted and the result, and the page of a challenge where one is sent.
abbrev pub Verdict : Type 0
Verdict = Outcome × Option RawResponse

abbrev pub no_page : Outcome → Verdict
no_page outcome = (outcome, none)

abbrev pub is_waf_ban : Text → Bool
is_waf_ban action = bytes_eq action (codes "ban") || bytes_eq action (codes "captcha")

abbrev challenged : Around → Envelope → Verdict
challenged a e =
    if a.sends_raw
    then ((dropped ∷ [], HandlerResult.done), some (challenge_page a e))
    else ((dropped ∷ [], HandlerResult.forbidden), none)

abbrev pub on_envelope : Around → AppSecLoc → IpAddr → Bool → Bool → Envelope → Verdict
on_envelope a l ip bot_challenge shm_ban e =
    if bytes_eq e.action (codes "allow")
    then no_page ([], HandlerResult.declined)
    else if is_waf_ban e.action
    then no_page (apply_shm_or_appsec_ban a l ip)
    else if bytes_eq e.action (codes "challenge") && shm_ban
    then no_page (apply_shm_or_appsec_ban a l ip)
    else if bytes_eq e.action (codes "challenge")
        && bot_challenge
        && not (length e.user_body_content == 0)
    then challenged a e
    else no_page (dropped ∷ [], HandlerResult.forbidden)

abbrev pub on_403 : Around → AppSecLoc → IpAddr → Bool → Bool → Option Envelope → Verdict
on_403 a l ip bot_challenge shm_ban none = no_page (apply_appsec_ban_page a l)
on_403 a l ip bot_challenge shm_ban (some e) = on_envelope a l ip bot_challenge shm_ban e

-- `internal_challenge` makes no difference here: both arms that it chooses between are the same.
unfoldable pub apply_appsec_response :
    Around → AppSecLoc → IpAddr → AppSecResponse → AppSecFailureAction → Bool → Bool → Verdict
unfolding fail_closed apply_appsec_ban_page apply_shm_or_appsec_ban challenge_page bytes_eq
apply_appsec_response a l ip response failure_action bot_challenge shm_ban =
    if response.status == 200
    then no_page ([], HandlerResult.declined)
    else if not (response.status == 403)
    then no_page (fail_closed a l (some ip) failure_action)
    else on_403 a l ip bot_challenge shm_ban response.envelope

unfoldable pub finalize_async_result : HandlerResult → Action
finalize_async_result HandlerResult.declined = finalize_allow
finalize_async_result HandlerResult.error = finalize_allow
finalize_async_result HandlerResult.forbidden = finalize 403
finalize_async_result HandlerResult.done = left_alone
finalize_async_result HandlerResult.body_read_pending = left_alone
