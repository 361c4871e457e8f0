-- ===== src/AppSec/Found.antt =====
-- src/appsec.rs: `appsec_context`, what an inspection starts from, or its result where there is none.
use ngx_http_crowdsec_module.AppSec.{
  AppSecFailureAction, passthrough, deny, AppSecLoc, AppSecConfig, text_or,
}
use ngx_http_crowdsec_module.AppSec.Response.{Around, fail_closed}
use ngx_http_crowdsec_module.Base.{
  Bool, not, ◌&&◌, ◌⊎◌, inl, inr, Option, none, some, [], if◌then◌else◌,
}
use ngx_http_crowdsec_module.Base.Text.{Text, codes, starts_with}
use ngx_http_crowdsec_module.Handler.{HandlerResult, Outcome, is_on}
use ngx_http_crowdsec_module.Net.{IpAddr}

-- What `appsec_context` finds.
pub record Inspected : Type 0 where
  pub config : AppSecConfig
  pub ip : IpAddr
  pub failure_action : AppSecFailureAction
  pub internal_challenge : Bool

abbrev pub is_challenge_uri : Option Text → Bool
is_challenge_uri uri = starts_with (codes "/crowdsec-internal/challenge/") (text_or (codes "/") uri)

abbrev action_or_default : Option AppSecFailureAction → AppSecFailureAction
action_or_default none = passthrough
action_or_default (some a) = a

abbrev pub forbidden_or : Bool → Outcome → Outcome
forbidden_or internal_challenge other =
    if internal_challenge then ([], HandlerResult.forbidden) else other

abbrev pub with_config :
    Around
    → AppSecLoc
    → Bool
    → AppSecFailureAction
    → Option AppSecConfig
    → Option IpAddr
    → Inspected ⊎ Outcome
with_config a l internal action config none =
    inr (forbidden_or internal (fail_closed a l none action))
with_config a l internal action none (some ip) =
    inr (forbidden_or internal (fail_closed a l (some ip) action))
with_config a l internal action (some config) (some ip) =
    inl
      (record { config = config; ip = ip; failure_action = action; internal_challenge = internal })

-- With the global configuration and the address of the client, where these are there.
unfoldable pub appsec_context :
    Around → AppSecLoc → Option AppSecConfig → Option IpAddr → Option Text → Inspected ⊎ Outcome
unfolding starts_with fail_closed
appsec_context a l config ip uri =
    let internal = is_challenge_uri uri in
    if not (is_on l.loc.appsec_enabled)
    then inr (forbidden_or internal ([], HandlerResult.declined))
    else if internal && not (is_on l.bot_challenge_enabled)
    then inr ([], HandlerResult.forbidden)
    else with_config a l internal
        (if internal then deny else action_or_default l.appsec_failure_action) config ip
