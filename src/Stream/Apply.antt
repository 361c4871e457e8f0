-- ===== src/Stream/Apply.antt =====
-- What a poll of the stream does to the decision store.
use ngx_http_crowdsec_module.Base.{
  ℕ, suc, ◌≡◌, refl, subst, inl, inr, Bool, true, false, Option, none, some, List, [], ◌∷◌,
  if◌then◌else◌, arith, Bool-cases,
}
use ngx_http_crowdsec_module.Base.Text.{Text}
use ngx_http_crowdsec_module.DecisionType.{DecisionType, FallbackRemediation, resolve_unknown_type}
use ngx_http_crowdsec_module.Net.{IpAddr, IsIp, canonicalize_ip, cidr_params_valid}
use ngx_http_crowdsec_module.Net.Cidr.{Cidr, parse_cidr}
use ngx_http_crowdsec_module.RealIp.Trust.{canonicalize_ip-IsIp}
use ngx_http_crowdsec_module.Shm.State.{ShmData}
use ngx_http_crowdsec_module.Shm.Trace.{Reachable, then, add, add_cidr, remove, remove_cidr, clear}
use ngx_http_crowdsec_module.Shm.Update.{
  Clock, add_decision, add_cidr_decision, remove_decision, remove_cidr_decision, clear_all,
  CidrDecisionInfo,
}
use ngx_http_crowdsec_module.Stream.{
  Parsers, Decision, StreamClientConfig, Times, Agent, Exchange, failed, malformed, answered,
  Target, single_or, range_or, remove_resolved, add_resolved, single, range, unparsed, target_of,
  remove_value, apply_deleted, add_value, apply_new, apply_all_deleted, apply_all_new, apply_to_shm,
  on_exchange, poll, or_empty, is_simulated, build_url,
}

-- The address parser gives addresses of four or sixteen bytes.
abbrev pub GivesIps : Parsers → Type 0
GivesIps std = (t : Text) (ip : IpAddr) → std.parse_ip t ≡ some ip → IsIp ip

-- A zone that is there and that runs of the writers reach.
abbrev pub Reached : ℕ → Option ShmData → Type 0
Reached capacity none = ⊥
Reached capacity (some s) = Reachable capacity s

abbrev IsTarget : Target → Type 0
IsTarget t = (ip : IpAddr) → t ≡ single ip → IsIp ip

range_or-IsTarget : (c : Option Cidr) → IsTarget (range_or c)
range_or-IsTarget none ip e = absurd (ground arith)
range_or-IsTarget (some c) ip e = absurd (ground arith)

single_or-IsTarget :
    (o : Option IpAddr) (c : Option Cidr)
    → ((ip : IpAddr) → o ≡ some ip → IsIp ip)
    → IsTarget (single_or o (range_or c))
single_or-IsTarget none c h ip e = range_or-IsTarget c ip e
single_or-IsTarget (some a) c h ip e =
    let same : canonicalize_ip a ≡ ip = ground arith in
    subst IsIp same (canonicalize_ip-IsIp a (h a refl))

target_of-IsTarget : (std : Parsers) (value : Text) → GivesIps std → IsTarget (target_of std value)
target_of-IsTarget std value ips =
    single_or-IsTarget (std.parse_ip value) (parse_cidr std.addr value) (ips value)

module _ (capacity : ℕ) where
  remove_resolved-Reached :
      (now : Option ℕ) (t : Target) (dt : Option DecisionType) (store : Option ShmData)
      → Reached capacity store
      → Reached capacity (remove_resolved now t dt store)
  unfolding remove_decision remove_cidr_decision
  remove_resolved-Reached now t none store r = r
  remove_resolved-Reached now t (some dt) none r = absurd r
  remove_resolved-Reached now (single a) (some dt) (some s) r = (then) r (remove now a dt)
  remove_resolved-Reached now (range c) (some dt) (some s) r =
      (then) r (remove_cidr now c.family c.prefix_len c.network dt)
  remove_resolved-Reached now unparsed (some dt) (some s) r = r

  apply_deleted-Reached :
      (std : Parsers) (fallback : FallbackRemediation) (now : Option ℕ) (d : Decision)
      (store : Option ShmData)
      → Reached capacity store
      → Reached capacity (apply_deleted std fallback now d store)
  unfolding apply_deleted
  apply_deleted-Reached std fallback now d store r = elim (Bool-cases (is_simulated d.simulated)) [
    | inl e ↦ rw e r
    | inr e ↦ rw e (value d.value)
  ]
    where
      value :
          (v : Option Text)
          → Reached capacity (remove_value std fallback now d.decision_type v store)
      value none = r
      value (some v) =
          remove_resolved-Reached now (target_of std v)
            (resolve_unknown_type fallback d.decision_type) store r

  add_cidr_decision-Reached :
      (clock : Clock) (info : CidrDecisionInfo) (store : Option ShmData)
      → Reached capacity store
      → Reached capacity (add_cidr_decision store clock info)
  unfolding add_cidr_decision
  add_cidr_decision-Reached clock info none r = absurd r
  add_cidr_decision-Reached clock info (some s) r =
      elim (Bool-cases (cidr_params_valid info.family info.prefix_len info.network)) [
        | inl e ↦ rw e ((then) r (add_cidr clock info))
        | inr e ↦ rw e r
      ]

  add_resolved-Reached :
      (clock : Clock) (d : Decision) (t : Target) (dt : Option DecisionType)
      (store : Option ShmData)
      → IsTarget t
      → Reached capacity store
      → Reached capacity (add_resolved clock d t dt store)
  unfolding add_decision add_cidr_decision
  add_resolved-Reached clock d t none store h r = r
  add_resolved-Reached clock d (single a) (some dt) none h r = r
  add_resolved-Reached clock d (single a) (some dt) (some s) h r = (then) r (add clock _ (h a refl))
  add_resolved-Reached clock d (range c) (some dt) store h r =
      add_cidr_decision-Reached clock _ store r
  add_resolved-Reached clock d unparsed (some dt) store h r = r

  apply_new-Reached :
      (std : Parsers) (fallback : FallbackRemediation) (clock : Clock) (d : Decision)
      (store : Option ShmData)
      → GivesIps std
      → Reached capacity store
      → Reached capacity (apply_new std fallback clock d store)
  unfolding apply_new
  apply_new-Reached std fallback clock d store ips r =
      elim (Bool-cases (is_simulated d.simulated)) [ inl e ↦ rw e r | inr e ↦ rw e (value d.value) ]
    where
      value : (v : Option Text) → Reached capacity (add_value std fallback clock d v store)
      value none = r
      value (some v) =
          add_resolved-Reached clock d (target_of std v)
            (resolve_unknown_type fallback d.decision_type) store (target_of-IsTarget std v ips) r

  pub apply_all_deleted-Reached :
      (std : Parsers) (fallback : FallbackRemediation) (now : ℕ → Option ℕ) (ds : List Decision)
      (store : Option ShmData)
      → Reached capacity store
      → Reached capacity (apply_all_deleted std fallback now ds store)
  apply_all_deleted-Reached std fallback now [] store r = r
  apply_all_deleted-Reached std fallback now (d ∷ ds) store r =
      apply_all_deleted-Reached std fallback (λ i. now (suc i)) ds _
        (apply_deleted-Reached std fallback (now 0) d store r)

  pub apply_all_new-Reached :
      (std : Parsers) (fallback : FallbackRemediation) (now : ℕ → Clock) (ds : List Decision)
      (store : Option ShmData)
      → GivesIps std
      → Reached capacity store
      → Reached capacity (apply_all_new std fallback now ds store)
  apply_all_new-Reached std fallback now [] store ips r = r
  apply_all_new-Reached std fallback now (d ∷ ds) store ips r =
      apply_all_new-Reached std fallback (λ i. now (suc i)) ds _ ips
        (apply_new-Reached std fallback (now 0) d store ips r)

  pub clear_all-Reached :
      (store : Option ShmData) → Reached capacity store → Reached capacity (clear_all store)
  unfolding clear_all
  clear_all-Reached none r = r
  clear_all-Reached (some s) r = (then) r clear

  pub begun-Reached :
      (startup : Bool) (store : Option ShmData)
      → Reached capacity store
      → Reached capacity (if startup then clear_all store else store)
  begun-Reached true store r = clear_all-Reached store r
  begun-Reached false store r = r

  pub poll-Reached :
      (std : Parsers) (config : StreamClientConfig) (times : Times) (startup : Bool) (agent : Agent)
      (store : Option ShmData)
      → GivesIps std
      → Reached capacity store
      → Reached capacity (poll std config times startup agent store).0
  unfolding poll apply_to_shm
  poll-Reached std config times startup agent store ips r =
      exchange (agent (build_url config startup) config.api_key config.timeout_secs)
    where
      exchange :
          (x : Exchange)
          → Reached capacity (on_exchange std config.fallback_remediation times startup x store).0
      exchange (failed e) = r
      exchange (malformed e) = r
      exchange (answered x) =
          apply_all_new-Reached std config.fallback_remediation times.adding (or_empty x.new) _ ips
            (apply_all_deleted-Reached std config.fallback_remediation times.removing
              (or_empty x.deleted) _ (begun-Reached startup store r))
