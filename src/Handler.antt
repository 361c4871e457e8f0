-- ===== src/Handler.antt =====
-- src/handler.rs: what happens to a request. Whether a response can be sent, the session of a
-- captcha, the body of a posted form, AppSec and the metrics page are inputs; the address of the
-- client and the lookup are those of RealIp and Shm/Lookup.
pub mod Ban
use ngx_http_crowdsec_module.Base.{
  ℕ, ◌-◌, Bool, true, false, not, ◌&&◌, ◌||◌, Option, none, some, List, [], ◌∷◌, ◌++◌, leb, ◌==◌,
  if◌then◌else◌, length, drop, bytes_eq, map, any,
}
use ngx_http_crowdsec_module.Base.Text.{Text, codes, utf8, to_ascii_lower}
use ngx_http_crowdsec_module.DecisionType.{DecisionType, FallbackRemediation}
use ngx_http_crowdsec_module.Net.{IpAddr}
use ngx_http_crowdsec_module.RealIp.{
  Parsers, TrustedCidr, Request, get_effective_client_ip, ip_in_cidr_list, is_empty,
}
use ngx_http_crowdsec_module.Shm.Lookup.{LookupResult, lookup_ip}
use ngx_http_crowdsec_module.Shm.Metrics.{
  MetricsEvent, http_lookup, http_ban, http_captcha, http_bypass,
}
use ngx_http_crowdsec_module.Shm.State.{ShmData}

pub data HandlerResult : Type 0 where
  declined forbidden error done body_read_pending : HandlerResult

-- `StoredPhaseResult::encode` and `decode`
unfoldable pub encode : HandlerResult → ℕ
encode declined = 1
encode forbidden = 2
encode done = 3
encode error = 4
encode body_read_pending = 4

unfoldable pub decode : ℕ → Option HandlerResult
decode v =
    if v == 1
    then some declined
    else if v == 2
    then some forbidden
    else if v == 3
    then some done
    else if v == 4
    then some error
    else none

pub data BanActionMode : Type 0 where
  block redirect : BanActionMode

pub data UnenforceableAction : Type 0 where
  let_through refuse : UnenforceableAction

pub data Method : Type 0 where
  post not_post : Method

-- The fields of `LocConfig` that the handlers read; of the templates and of the captcha's
-- configuration only whether they are there.
pub record LocConfig : Type 0 where
  pub enabled : Option Bool
  pub ban_action : Option BanActionMode
  pub ban_redirect_url : Option Text
  pub ban_template : Bool
  pub captcha_template : Bool
  pub captcha_config : Bool
  pub unenforceable_action : Option UnenforceableAction
  pub static_asset_extensions : Option (List Text)
  pub appsec_enabled : Option Bool
  pub appsec_always : Option Bool

pub record MainConfig : Type 0 where
  pub trusted_proxies : List TrustedCidr
  pub real_ip_header : Option Text
  pub bypass_cidrs : List TrustedCidr
  pub fallback_remediation : FallbackRemediation

-- What stands outside: the metrics page, the path of the request, its method, which responses nginx
-- sends (`sends_refusal` for the one of `finish_block_ban`), whether the status of a ban is 403, and the parts of the captcha and of AppSec.
pub record Outside : Type 0 where
  pub metrics_page : Option HandlerResult
  pub path : Option Text
  pub method : Method
  pub status_is_403 : Bool
  pub sends_redirect : Bool
  pub sends_empty : Bool
  pub sends_refusal : Bool
  pub sends_ban_page : Bool
  pub sends_captcha_page : Bool
  pub resumed : Option HandlerResult
  pub session_valid : Bool
  pub is_form : Bool
  pub size_acceptable : Bool
  pub body_read : HandlerResult
  pub is_subrequest : Bool
  pub internal_challenge : Bool
  pub inspects : Bool → HandlerResult

-- What a handler counts: a request that is processed and one that is dropped in the usage metrics,
-- and the shared counters.
pub data Effect : Type 0 where
  processed dropped : Effect
  counted : MetricsEvent → Effect

abbrev pub Outcome : Type 0
Outcome = List Effect × HandlerResult

abbrev pub after : List Effect → Outcome → Outcome
after es (fs, r) = (es ++ fs, r)

-- A suffix of the path, whatever its case.
unfoldable pub path_has_static_suffix : Text → List Text → Bool
unfolding utf8 bytes_eq to_ascii_lower
path_has_static_suffix path exts =
    any
      (λ ext.
        let path_bytes = utf8 path in
        let ext_bytes = utf8 ext in
        leb (length ext_bytes) (length path_bytes)
        && bytes_eq (map to_ascii_lower (drop (length path_bytes - length ext_bytes) path_bytes))
            (map to_ascii_lower ext_bytes))
      exts

unfoldable pub is_static_asset_path : Option (List Text) → Text → Bool
unfolding path_has_static_suffix
is_static_asset_path (some []) path = false
is_static_asset_path (some (e ∷ es)) path = path_has_static_suffix path (e ∷ es)
is_static_asset_path none path =
    let bytes = utf8 path in
    bytes_eq (map to_ascii_lower (drop (length bytes - 4) bytes)) (codes ".ico")

abbrev pub is_static_asset_request : Outside → LocConfig → Bool
is_static_asset_request o loc = elim (o.path) [
  | none ↦ false
  | some path ↦ is_static_asset_path (loc.static_asset_extensions) path
]

abbrev pub is_on : Option Bool → Bool
is_on (some true) = true
is_on _ = false

unfoldable pub should_run_appsec : LocConfig → LookupResult → Bool
should_run_appsec loc lookup =
    is_on loc.appsec_enabled && (not lookup.found || is_on loc.appsec_always)

-- `record_ban_applied`
abbrev pub ban_applied : List Effect
ban_applied = dropped ∷ counted http_ban ∷ []

unfoldable pub finish_block_ban : Outside → HandlerResult
finish_block_ban o = if o.sends_refusal then done else if o.status_is_403 then forbidden else error

abbrev pub action_or_default : Option UnenforceableAction → UnenforceableAction
action_or_default none = let_through
action_or_default (some a) = a

abbrev pub unenforceable : Outside → UnenforceableAction → HandlerResult
unenforceable o let_through = declined
unenforceable o refuse = finish_block_ban o

unfoldable pub apply_unenforceable_action : Outside → LocConfig → HandlerResult
unfolding finish_block_ban
apply_unenforceable_action o loc = unenforceable o (action_or_default loc.unenforceable_action)

-- The redirect is tried where it is asked for and has a target.
abbrev pub redirects : LocConfig → Bool
redirects loc = elim (loc.ban_action) [
  | some redirect ↦ elim (loc.ban_redirect_url) [ some url ↦ true | none ↦ false ]
  | _ ↦ false
]

unfoldable pub handle_ban_decision : Outside → LocConfig → Outcome
unfolding apply_unenforceable_action is_static_asset_path
handle_ban_decision o loc =
    if redirects loc && o.sends_redirect
    then (ban_applied, done)
    else if is_static_asset_request o loc
    then (ban_applied, finish_block_ban o)
    else if (if loc.ban_template then o.sends_ban_page else o.sends_empty)
    then (ban_applied, done)
    else ([], apply_unenforceable_action o loc)

unfoldable pub try_send_captcha_page : Outside → LocConfig → HandlerResult
unfolding apply_unenforceable_action
try_send_captcha_page o loc =
    if loc.captcha_template && o.sends_captcha_page then done else apply_unenforceable_action o loc

abbrev is_error : HandlerResult → Bool
is_error error = true
is_error _ = false

abbrev is_done : HandlerResult → Bool
is_done done = true
is_done _ = false

unfoldable pub handle_captcha_post : Outside → LocConfig → HandlerResult
unfolding try_send_captcha_page
handle_captcha_post o loc =
    if not o.is_form
    then try_send_captcha_page o loc
    else if not o.size_acceptable
    then try_send_captcha_page o loc
    else if not loc.captcha_template || is_error o.body_read
    then apply_unenforceable_action o loc
    else o.body_read

abbrev on_method : Outside → LocConfig → Method → Outcome
on_method o loc post =
    if loc.captcha_template
    then (dropped ∷ [], handle_captcha_post o loc)
    else ([], apply_unenforceable_action o loc)
on_method o loc not_post =
    let result = try_send_captcha_page o loc in
    (if is_done result then dropped ∷ [] else [], result)

abbrev pub new_captcha : Outside → LocConfig → Outcome
new_captcha o loc =
    if is_static_asset_request o loc
    then (if o.sends_empty
        then (counted http_captcha ∷ [], done)
        else ([], apply_unenforceable_action o loc))
    else if not loc.captcha_config
    then ([], apply_unenforceable_action o loc)
    else if o.session_valid
    then ([], declined)
    else on_method o loc o.method

unfoldable pub handle_captcha_decision : Outside → LocConfig → Outcome
unfolding handle_captcha_post is_static_asset_path
handle_captcha_decision o loc = elim (o.resumed) [
  | some result ↦ ([], result)
  | none ↦ new_captcha o loc
]

abbrev pub handle_unknown : Outside → LocConfig → FallbackRemediation → Outcome
handle_unknown o loc FallbackRemediation.allow = ([], declined)
handle_unknown o loc FallbackRemediation.ban = handle_ban_decision o loc
handle_unknown o loc FallbackRemediation.captcha = handle_captcha_decision o loc

abbrev pub remediate : Outside → LocConfig → MainConfig → DecisionType → Outcome
remediate o loc main DecisionType.ban = handle_ban_decision o loc
remediate o loc main DecisionType.captcha = handle_captcha_decision o loc
remediate o loc main DecisionType.unknown = handle_unknown o loc (main.fallback_remediation)

-- Without a decision the cookie of an old captcha session is cleared, which no effect records.
unfoldable pub apply_lookup_remediation : Outside → LocConfig → MainConfig → LookupResult → Outcome
unfolding handle_ban_decision handle_captcha_decision
apply_lookup_remediation o loc main lookup =
    if not lookup.found then ([], declined) else remediate o loc main lookup.decision_type

abbrev pub bypasses : MainConfig → IpAddr → Bool
bypasses main ip = not (is_empty (main.bypass_cidrs)) && ip_in_cidr_list ip (main.bypass_cidrs)

abbrev pub looked_up : Outside → LocConfig → MainConfig → LookupResult → Outcome
looked_up o loc main lookup =
    if should_run_appsec loc lookup
    then ([], declined)
    else apply_lookup_remediation o loc main lookup

abbrev pub for_client :
    Outside → LocConfig → MainConfig → Option ShmData → ℕ → Option IpAddr → Outcome
for_client o loc main store now none = ([], error)
for_client o loc main store now (some ip) =
    if bypasses main ip
    then (processed ∷ counted http_bypass ∷ [], declined)
    else after (processed ∷ counted http_lookup ∷ [])
        (looked_up o loc main (lookup_ip store ip now))

abbrev pub client_of : Parsers → MainConfig → Request → Option IpAddr
client_of std main request =
    get_effective_client_ip std request (main.trusted_proxies) (main.real_ip_header)

unfoldable pub handle_access :
    Parsers → Outside → LocConfig → MainConfig → Request → Option ShmData → ℕ → Outcome
unfolding get_effective_client_ip ip_in_cidr_list should_run_appsec apply_lookup_remediation
    lookup_ip
handle_access std o loc main request store now = elim (o.metrics_page) [
  | some result ↦ ([], result)
  | none ↦
      if is_on loc.enabled
      then for_client o loc main store now (client_of std main request)
      else ([], declined)
]

abbrev pub is_declined : HandlerResult → Bool
is_declined declined = true
is_declined _ = false

abbrev pub is_ban : DecisionType → Bool
is_ban DecisionType.ban = true
is_ban _ = false

abbrev pub inspected : Outside → LocConfig → MainConfig → LookupResult → Outcome
inspected o loc main lookup =
    if not (should_run_appsec loc lookup) && not o.internal_challenge
    then ([], declined)
    else let appsec = o.inspects (lookup.found && is_ban lookup.decision_type) in
      if is_declined appsec then apply_lookup_remediation o loc main lookup else ([], appsec)

abbrev pub precontent_for :
    Outside → LocConfig → MainConfig → Option ShmData → ℕ → Option IpAddr → Outcome
precontent_for o loc main store now none = ([], error)
precontent_for o loc main store now (some ip) =
    if bypasses main ip then ([], declined) else inspected o loc main (lookup_ip store ip now)

-- A body that was read for a captcha decides.
abbrev pub resumed_or : Option HandlerResult → Outcome → Outcome
resumed_or (some result) other = ([], result)
resumed_or none other = other

unfoldable pub handle_precontent :
    Parsers → Outside → LocConfig → MainConfig → Request → Option ShmData → ℕ → Outcome
unfolding get_effective_client_ip ip_in_cidr_list should_run_appsec apply_lookup_remediation
    lookup_ip
handle_precontent std o loc main request store now =
    if not (is_on loc.enabled) || o.is_subrequest
    then ([], declined)
    else resumed_or o.resumed (precontent_for o loc main store now (client_of std main request))
