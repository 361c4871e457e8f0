-- ===== src/Tests/Requests.antt =====
-- The theorems on the handling of a request, at a banned client.
use ngx_http_crowdsec_module.Base.{
  ◌≡◌, ◌⊎◌, refl, true, false, Option, none, some, [], ◌∷◌, if◌then◌else◌, ◌&&◌, replicate, arith,
}
use ngx_http_crowdsec_module.Base.Text.{codes}
use ngx_http_crowdsec_module.DecisionType.{DecisionType, FallbackRemediation}
use ngx_http_crowdsec_module.Handler.Ban.{
  FoundBan, handle_access-handle_precontent, handle_ban_decision-declined,
}
use ngx_http_crowdsec_module.Handler.{
  LocConfig, MainConfig, Outside, declined, done, not_post, let_through, action_or_default,
  redirects, handle_access, handle_precontent, handle_ban_decision, apply_unenforceable_action,
}
use ngx_http_crowdsec_module.Net.{IpAddr, v4}
use ngx_http_crowdsec_module.Origin
use ngx_http_crowdsec_module.RealIp.{Parsers, Request, get_effective_client_ip}
use ngx_http_crowdsec_module.Shm.Lookup.{lookup_ip}
use ngx_http_crowdsec_module.Shm.State.{ShmData}
use ngx_http_crowdsec_module.Shm.Trace.{start}
use ngx_http_crowdsec_module.Shm.Update.{DecisionInfo, Clock, add_decision}
use ngx_http_crowdsec_module.Shm.Zone.{fresh}
use ngx_http_crowdsec_module.Stream.Found.{added_ban-lookup_ip}

abbrev pub visitor : IpAddr
visitor = v4 (192 ∷ 0 ∷ 2 ∷ 9 ∷ [])

abbrev request : Request
request = record {
  sockaddr =
      some (record { sa_family = 2; sin_addr = 192 ∷ 0 ∷ 2 ∷ 9 ∷ []; sin6_addr = replicate 16 0 });
  headers_in = [];
}

abbrev parsers : Parsers
parsers = record { parse_ip = λ s. none; parse_u32 = λ s. none }

abbrev pub outside : Outside
outside = record {
  metrics_page = none;
  path = some (codes "/login");
  method = not_post;
  status_is_403 = true;
  sends_redirect = true;
  sends_empty = true;
  sends_refusal = true;
  sends_ban_page = true;
  sends_captcha_page = true;
  resumed = none;
  session_valid = false;
  is_form = false;
  size_acceptable = true;
  body_read = declined;
  is_subrequest = false;
  internal_challenge = false;
  inspects = λ banned. declined;
}

-- AppSec looks at every request.
abbrev pub loc : LocConfig
loc = record {
  enabled = some true;
  ban_action = none;
  ban_redirect_url = none;
  ban_template = false;
  captcha_template = false;
  captcha_config = false;
  unenforceable_action = none;
  static_asset_extensions = none;
  appsec_enabled = some true;
  appsec_always = some true;
}

abbrev main : MainConfig
main = record {
  trusted_proxies = [];
  real_ip_header = none;
  bypass_cidrs = [];
  fallback_remediation = FallbackRemediation.allow;
}

abbrev info : DecisionInfo
info = record {
  ip = visitor;
  decision_type = DecisionType.ban;
  origin = Origin.unknown;
  scenario = none;
  duration_secs = none;
}

abbrev clock : Clock
clock = record { at_start = some 1000; at_prune = some 1000; at_evict = some 1000 }

abbrev store : Option ShmData
store = add_decision (some (fresh 4)) clock info

visitor_banned : FoundBan (lookup_ip store visitor 2000)
visitor_banned =
    added_ban-lookup_ip 4 (some (fresh 4)) clock info 2000 (ground arith) (ground arith) start
      (ground arith) refl refl

handle_access-handle_precontent_example :
    ((handle_access parsers outside loc main request store 2000).1 ≡ done)
    ⊎ ((handle_access parsers outside loc main request store 2000).1 ≡ declined)
      × ((handle_precontent parsers outside loc main request store 2000).1 ≡ done)
handle_access-handle_precontent_example =
    handle_access-handle_precontent parsers outside loc main request store 2000 visitor refl refl
      refl refl (unfold get_effective_client_ip in refl) refl visitor_banned refl
      (refl, refl, refl, refl)

-- No response can be sent.
abbrev broken : Outside
broken = record outside { sends_empty = false; sends_refusal = false }

handle_ban_decision-declined_example :
    (action_or_default loc.unenforceable_action ≡ let_through)
    × ((if loc.ban_template then broken.sends_ban_page else broken.sends_empty) ≡ false)
    × ((redirects loc && broken.sends_redirect) ≡ false)
    × ((handle_ban_decision broken loc).0 ≡ [])
handle_ban_decision-declined_example =
    handle_ban_decision-declined broken loc
      (unfold handle_ban_decision apply_unenforceable_action in refl)
