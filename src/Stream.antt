-- ===== src/Stream.antt =====
-- src/stream.rs and src/types.rs: the client that polls the LAPI's stream of decisions and writes
-- them to the decision store. The HTTP exchange, the standard library's address parsers, the clock
-- and the sleeping are parameters.
pub mod Duration
pub mod Loop
pub mod Apply
pub mod Found
pub mod Retry
pub mod Whole
use ngx_http_crowdsec_module.Base.{
  ℕ, suc, ◌⊎◌, inl, inr, Bool, true, false, Option, none, some, List, [], ◌∷◌, ◌++◌, length,
  if◌then◌else◌, ◌>>=◌,
}
use ngx_http_crowdsec_module.Base.Text.{Text, codes, utf8, trim_end_matches}
use ngx_http_crowdsec_module.DecisionType.{
  DecisionType, FallbackRemediation, allow, resolve_unknown_type,
}
use ngx_http_crowdsec_module.Net.{IpAddr, canonicalize_ip}
use ngx_http_crowdsec_module.Net.Cidr.{AddrParsers, Cidr, parse_cidr}
use ngx_http_crowdsec_module.Origin
use ngx_http_crowdsec_module.Origin.{Origin}
use ngx_http_crowdsec_module.Shm.State.{ShmData}
use ngx_http_crowdsec_module.Shm.Update.{
  DecisionInfo, CidrDecisionInfo, Clock, add_decision, add_cidr_decision, remove_decision,
  remove_cidr_decision, clear_all,
}
use ngx_http_crowdsec_module.Stream.Duration.{parse_duration}

pub record Decision : Type 0 where
  pub id : Option ℕ
  pub origin : Option Text
  pub decision_type : Text
  pub scope : Option Text
  pub value : Option Text
  pub duration : Option Text
  pub scenario : Option Text
  pub until : Option Text
  pub simulated : Option Bool
  pub uuid : Option Text

pub record StreamResponse : Type 0 where
  pub new : Option (List Decision)
  pub deleted : Option (List Decision)

pub data StreamError : Type 0 where
  http_error : Text → StreamError
  json_error : Text → StreamError

pub record StreamClientConfig : Type 0 where
  pub url : Text
  pub api_key : Text
  pub poll_interval_secs : ℕ
  pub timeout_secs : ℕ
  pub max_retries : ℕ
  pub retry_interval_secs : ℕ
  pub usage_metrics_interval_secs : ℕ
  pub fallback_remediation : FallbackRemediation

abbrev pub default_config : StreamClientConfig
default_config = record {
  url = codes "http://127.0.0.1:8080";
  api_key = [];
  poll_interval_secs = 10;
  timeout_secs = 30;
  max_retries = 3;
  retry_interval_secs = 5;
  usage_metrics_interval_secs = 900;
  fallback_remediation = allow;
}

-- `format!` of a Boolean.
abbrev bool_text : Bool → Text
bool_text true = codes "true"
bool_text false = codes "false"

unfoldable pub build_url : StreamClientConfig → Bool → Text
unfolding trim_end_matches
build_url config startup =
    trim_end_matches 47 config.url ++ codes "/v1/decisions/stream?startup=" ++ bool_text startup

-- `str::parse` at `IpAddr`, and what `parse_cidr` uses.
pub record Parsers : Type 0 where
  pub parse_ip : Text → Option IpAddr
  pub addr : AddrParsers

abbrev pub is_simulated : Option Bool → Bool
is_simulated (some true) = true
is_simulated _ = false

-- What a value stands for: an address first, then a range.
pub data Target : Type 0 where
  single : IpAddr → Target
  range : Cidr → Target
  unparsed : Target

abbrev pub range_or : Option Cidr → Target
range_or (some c) = range c
range_or none = unparsed

abbrev pub single_or : Option IpAddr → Target → Target
single_or (some ip) other = single (canonicalize_ip ip)
single_or none other = other

abbrev pub target_of : Parsers → Text → Target
target_of std value = single_or (std.parse_ip value) (range_or (parse_cidr (std.addr) value))

abbrev pub remove_target : Option ℕ → DecisionType → Target → Option ShmData → Option ShmData
remove_target now dt (single ip) store = remove_decision store now ip dt
remove_target now dt (range c) store =
    remove_cidr_decision store now (c.family) (c.prefix_len) (c.network) dt
remove_target now dt unparsed store = store

-- A type that is not resolved is skipped.
abbrev pub remove_resolved :
    Option ℕ → Target → Option DecisionType → Option ShmData → Option ShmData
remove_resolved now t none store = store
remove_resolved now t (some dt) store = remove_target now dt t store

abbrev pub remove_value :
    Parsers → FallbackRemediation → Option ℕ → Text → Option Text → Option ShmData → Option ShmData
remove_value std fallback now raw_type none store = store
remove_value std fallback now raw_type (some value) store =
    remove_resolved now (target_of std value) (resolve_unknown_type fallback raw_type) store

-- One round of the loop over the deleted decisions.
unfoldable pub apply_deleted :
    Parsers → FallbackRemediation → Option ℕ → Decision → Option ShmData → Option ShmData
unfolding canonicalize_ip parse_cidr resolve_unknown_type remove_decision remove_cidr_decision
apply_deleted std fallback now d store =
    if is_simulated d.simulated
    then store
    else remove_value std fallback now d.decision_type d.value store

abbrev pub origin_of : Option Text → Origin
origin_of none = Origin.unknown
origin_of (some s) = Origin.from_str s

abbrev pub scenario_bytes : Option Text → Option (List ℕ)
scenario_bytes none = none
scenario_bytes (some s) = some (utf8 s)

abbrev pub add_target : Clock → DecisionType → Decision → Target → Option ShmData → Option ShmData
add_target clock dt d (single ip) store = add_decision store clock (record {
  ip = ip;
  decision_type = dt;
  origin = origin_of d.origin;
  scenario = scenario_bytes d.scenario;
  duration_secs = d.duration >>= parse_duration;
})
add_target clock dt d (range c) store = add_cidr_decision store clock (record {
  network = c.network;
  family = c.family;
  prefix_len = c.prefix_len;
  decision_type = dt;
  origin = origin_of d.origin;
  scenario = scenario_bytes d.scenario;
  duration_secs = d.duration >>= parse_duration;
})
add_target clock dt d unparsed store = store

abbrev pub add_resolved :
    Clock → Decision → Target → Option DecisionType → Option ShmData → Option ShmData
add_resolved clock d t none store = store
add_resolved clock d t (some dt) store = add_target clock dt d t store

abbrev pub add_value :
    Parsers → FallbackRemediation → Clock → Decision → Option Text → Option ShmData → Option ShmData
add_value std fallback clock d none store = store
add_value std fallback clock d (some value) store =
    add_resolved clock d (target_of std value) (resolve_unknown_type fallback d.decision_type) store

-- One round of the loop over the new decisions.
unfoldable pub apply_new :
    Parsers → FallbackRemediation → Clock → Decision → Option ShmData → Option ShmData
unfolding canonicalize_ip parse_cidr resolve_unknown_type add_decision add_cidr_decision
    parse_duration utf8 Origin.from_str
apply_new std fallback clock d store =
    if is_simulated d.simulated then store else add_value std fallback clock d d.value store

-- The readings of the clock of one poll, by the position of the decision that they serve.
pub record Times : Type 0 where
  pub removing : ℕ → Option ℕ
  pub adding : ℕ → Clock

abbrev pub apply_all_deleted :
    Parsers → FallbackRemediation → (ℕ → Option ℕ) → List Decision → Option ShmData → Option ShmData
apply_all_deleted std fallback now [] store = store
apply_all_deleted std fallback now (d ∷ ds) store =
    apply_all_deleted std fallback (λ i. now (suc i)) ds
      (apply_deleted std fallback (now 0) d store)

abbrev pub apply_all_new :
    Parsers → FallbackRemediation → (ℕ → Clock) → List Decision → Option ShmData → Option ShmData
apply_all_new std fallback now [] store = store
apply_all_new std fallback now (d ∷ ds) store =
    apply_all_new std fallback (λ i. now (suc i)) ds (apply_new std fallback (now 0) d store)

unfoldable pub apply_to_shm :
    Parsers
    → FallbackRemediation
    → Times
    → List Decision
    → List Decision
    → Option ShmData
    → Option ShmData
unfolding apply_deleted apply_new
apply_to_shm std fallback times new_decisions deleted_decisions store =
    apply_all_new std fallback times.adding new_decisions
      (apply_all_deleted std fallback times.removing deleted_decisions store)

-- What one call of the agent gives: an error, a body that is not of the expected form, or an answer.
pub data Exchange : Type 0 where
  failed : Text → Exchange
  malformed : Text → Exchange
  answered : StreamResponse → Exchange

-- The agent, asked for a URL with a key and within a time.
abbrev pub Agent : Type 0
Agent = Text → Text → ℕ → Exchange

abbrev pub PollResult : Type 0
PollResult = (ℕ × ℕ) ⊎ StreamError

abbrev pub or_empty : Option (List Decision) → List Decision
or_empty none = []
or_empty (some ds) = ds

abbrev pub apply_answer :
    Parsers → FallbackRemediation → Times → Bool → StreamResponse → Option ShmData → Option ShmData
apply_answer std fallback times startup r store =
    apply_to_shm std fallback times (or_empty r.new) (or_empty r.deleted)
      (if startup then clear_all store else store)

abbrev pub on_exchange :
    Parsers
    → FallbackRemediation
    → Times
    → Bool
    → Exchange
    → Option ShmData
    → Option ShmData × PollResult
on_exchange std fallback times startup (failed e) store = (store, inr (http_error e))
on_exchange std fallback times startup (malformed e) store = (store, inr (json_error e))
on_exchange std fallback times startup (answered r) store = (
  apply_answer std fallback times startup r store,
  inl (length (or_empty r.new), length (or_empty r.deleted)),
)

unfoldable pub poll :
    Parsers
    → StreamClientConfig
    → Times
    → Bool
    → Agent
    → Option ShmData
    → Option ShmData × PollResult
unfolding build_url apply_to_shm clear_all
poll std config times startup agent store =
    on_exchange std config.fallback_remediation times startup
      (agent (build_url config startup) config.api_key config.timeout_secs) store
