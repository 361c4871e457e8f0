-- ===== src/Stream/Found.antt =====
-- A ban in an answer of the LAPI is in force behind the poll.
use ngx_http_crowdsec_module.Base.{
  ℕ, suc, ◌≡◌, ◌<◌, refl, Bool, true, false, Option, none, some, List, [], ◌∷◌, ◌++◌, length, ◌>>=◌,
}
use ngx_http_crowdsec_module.Base.Text.{Text}
use ngx_http_crowdsec_module.DecisionType.{DecisionType, FallbackRemediation, resolve_unknown_type}
use ngx_http_crowdsec_module.Net.{IpAddr, IsIp, canonicalize_ip}
use ngx_http_crowdsec_module.RealIp.Trust.{canonicalize_ip-IsIp}
use ngx_http_crowdsec_module.Shm.State.{ShmData}
use ngx_http_crowdsec_module.Base.Words.{u32_mod}
use ngx_http_crowdsec_module.Expiry.Remedy.{is_live, of_deadline}
use ngx_http_crowdsec_module.Shm.Lookup.{lookup_ip}
use ngx_http_crowdsec_module.Shm.View.Answers.{add_decision-lookup_locked}
use ngx_http_crowdsec_module.Stream.Duration.{parse_duration}
use ngx_http_crowdsec_module.Shm.Trace.{Reachable-IsValid}
use ngx_http_crowdsec_module.Shm.Update.{expires_at, Clock, add_decision, DecisionInfo}
use ngx_http_crowdsec_module.Stream.{
  Parsers, Decision, StreamResponse, StreamClientConfig, Times, Agent, answered, origin_of,
  scenario_bytes, apply_new, apply_all_new, apply_to_shm, poll, or_empty, is_simulated, build_url,
}
use ngx_http_crowdsec_module.Stream.Apply.{
  GivesIps, Reached, apply_all_deleted-Reached, apply_all_new-Reached, begun-Reached,
}

-- The last decision of a list comes last.
apply_all_new-snoc :
    (std : Parsers) (fallback : FallbackRemediation) (now : ℕ → Clock) (ds : List Decision)
    (d : Decision) (store : Option ShmData)
    → apply_all_new std fallback now (ds ++ (d ∷ [])) store
      ≡ apply_new std fallback (now (length ds)) d (apply_all_new std fallback now ds store)
apply_all_new-snoc std fallback now [] d store = refl
apply_all_new-snoc std fallback now (x ∷ ds) d store =
    apply_all_new-snoc std fallback (λ i. now (suc i)) ds d (apply_new std fallback (now 0) x store)

-- What apply_new asks of the store for an address with a resolved type.
abbrev info_of : Decision → IpAddr → DecisionType → DecisionInfo
info_of d a dt = record {
  ip = a;
  decision_type = dt;
  origin = origin_of d.origin;
  scenario = scenario_bytes d.scenario;
  duration_secs = d.duration >>= parse_duration;
}

apply_new-add_decision :
    (std : Parsers) (fallback : FallbackRemediation) (clock : Clock) (d : Decision)
    (store : Option ShmData) (value : Text) (a : IpAddr) (dt : DecisionType)
    → is_simulated d.simulated ≡ false
    → d.value ≡ some value
    → std.parse_ip value ≡ some a
    → resolve_unknown_type fallback d.decision_type ≡ some dt
    → apply_new std fallback clock d store
      ≡ add_decision store clock (info_of d (canonicalize_ip a) dt)
unfolding apply_new add_decision
apply_new-add_decision std fallback clock d store value a dt real at_value parsed typed =
    rw (real, at_value, parsed, typed) refl

-- A ban in an answer is found.
pub added_ban-lookup_ip :
    (capacity : ℕ) (store : Option ShmData) (clock : Clock) (info : DecisionInfo) (now : ℕ)
    → 0 < capacity
    → capacity < u32_mod
    → Reached capacity store
    → IsIp info.ip
    → info.decision_type ≡ DecisionType.ban
    → is_live (of_deadline (expires_at clock.at_start info.duration_secs)) now ≡ true
    → ((lookup_ip (add_decision store clock info) info.ip now).found ≡ true)
      × ((lookup_ip (add_decision store clock info) info.ip now).decision_type ≡ DecisionType.ban)
unfolding add_decision lookup_ip
added_ban-lookup_ip capacity none clock info now pos small r wf type live = absurd r
added_ban-lookup_ip capacity (some s) clock info now pos small r wf type live =
    add_decision-lookup_locked s clock info now (Reachable-IsValid capacity s pos small r) wf type
      live

-- If the last new decision of an answer is a ban of an address, not simulated, then after the poll
-- that got it, whatever the poll removes and adds before, a lookup of the address finds a ban at
-- every time that the decision's deadline has not passed, and always where it has none; the zone
-- is one that the writers can reach, its capacity is positive and below 2^32, and the address
-- parser gives four or sixteen bytes.
pub poll-lookup_ip :
    (capacity : ℕ) (std : Parsers) (config : StreamClientConfig) (times : Times) (startup : Bool)
    (agent : Agent) (store : Option ShmData) (answer : StreamResponse) (earlier : List Decision)
    (d : Decision) (value : Text) (a : IpAddr) (now : ℕ)
    → 0 < capacity
    → capacity < u32_mod
    → GivesIps std
    → Reached capacity store
    → agent (build_url config startup) config.api_key config.timeout_secs ≡ answered answer
    → answer.new ≡ some (earlier ++ (d ∷ []))
    → is_simulated d.simulated ≡ false
    → d.value ≡ some value
    → std.parse_ip value ≡ some a
    → resolve_unknown_type config.fallback_remediation d.decision_type ≡ some DecisionType.ban
    → is_live
        (of_deadline
          (expires_at (times.adding (length earlier)).at_start (d.duration >>= parse_duration)))
        now
      ≡ true
    → ((lookup_ip (poll std config times startup agent store).0 (canonicalize_ip a) now).found
        ≡ true)
      × ((lookup_ip
            (poll std config times startup agent store).0
            (canonicalize_ip a)
            now).decision_type
          ≡ DecisionType.ban)
unfolding poll apply_to_shm
poll-lookup_ip capacity std config times startup agent store answer earlier d value a now pos small
      ips reached at_answer at_new real at_value parsed typed live =
    let fallback = config.fallback_remediation in
    let begun = begun-Reached capacity startup store reached in
    let kept =
      apply_all_deleted-Reached capacity std fallback times.removing (or_empty answer.deleted) _
        begun in
    let ready = apply_all_new-Reached capacity std fallback times.adding earlier _ ips kept in
    rw
      (
        at_answer,
        at_new,
        apply_all_new-snoc,
        apply_new-add_decision std fallback _ d _ value a DecisionType.ban real at_value parsed
            typed,
      )
      (added_ban-lookup_ip capacity _ (times.adding (length earlier))
        (info_of d (canonicalize_ip a) DecisionType.ban) now pos small ready
        (canonicalize_ip-IsIp a (ips value a parsed)) refl live)
