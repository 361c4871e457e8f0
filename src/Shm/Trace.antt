-- ===== src/Shm/Trace.antt =====
-- Runs of the decision store: the writers of src/shm.rs in any order, each under the write lock, so
-- that one call is one step.
use ngx_http_crowdsec_module.Base.{
  ℕ, Bool, ◌<◌, refl, inl, inr, not, ◌&&◌, ◌==◌, Option, List, Bool-cases,
}
use ngx_http_crowdsec_module.Base.Words.{u32_mod}
use ngx_http_crowdsec_module.DecisionType.{DecisionType}
use ngx_http_crowdsec_module.Net.{IpAddr, IsIp}
use ngx_http_crowdsec_module.Shm.State.{ShmData}
use ngx_http_crowdsec_module.Shm.Update.Keeps.{
  add_decision_locked-IsValid, add_cidr_decision_locked-IsValid,
  remove_decision_type_locked-IsValid, remove_cidr_decision_type_locked-IsValid,
  clear_all_locked-IsValid,
}
use ngx_http_crowdsec_module.Shm.Update.{
  DecisionInfo, CidrDecisionInfo, Clock, add_decision_locked, add_cidr_decision_locked,
  remove_decision_type_locked, remove_cidr_decision_type_locked, clear_all_locked,
}
use ngx_http_crowdsec_module.Shm.Valid.{IsValid, same-IsValid}
use ngx_http_crowdsec_module.Shm.Zone.Init.{fresh-IsValid, reuse-IsValid}
use ngx_http_crowdsec_module.Shm.Zone.{fresh, reuse, drop_dead_claim, claim, process_alive}

-- One step of the zone; the addresses are well formed, as the type of the source makes them. A
-- reload, with what `kill` says of the processes, is a step too, and so are the two writes of the
-- poller election.
pub data Step : ShmData → ShmData → Type 0 where
  add :
      {s : ShmData} (clock : Clock) (info : DecisionInfo)
      → IsIp info.ip
      → Step s (add_decision_locked s clock info)
  add_cidr :
      {s : ShmData} (clock : Clock) (info : CidrDecisionInfo)
      → Step s (add_cidr_decision_locked s clock info)
  remove :
      {s : ShmData} (clock : Option ℕ) (a : IpAddr) (dt : DecisionType)
      → Step s (remove_decision_type_locked s clock a dt)
  remove_cidr :
      {s : ShmData} (clock : Option ℕ) (f p : ℕ) (n : List ℕ) (dt : DecisionType)
      → Step s (remove_cidr_decision_type_locked s clock f p n dt)
  clear : {s : ShmData} → Step s (clear_all_locked s)
  reload : {s : ShmData} (signalled : ℕ → Bool) → Step s (reuse signalled s)
  drop_claim :
      {s : ShmData} (signalled : ℕ → Bool) (my_pid : ℕ)
      → Step s (drop_dead_claim signalled my_pid s)
  take_claim : {s : ShmData} (expected new : ℕ) → Step s (claim s expected new)

-- The zones that a fresh zone of the capacity can become.
pub data Reachable (capacity : ℕ) : ShmData → Type 0 where
  start : Reachable capacity (fresh capacity)
  then : {s s' : ShmData} → Reachable capacity s → Step s s' → Reachable capacity s'

drop_dead_claim-IsValid :
    (signalled : ℕ → Bool) (my_pid : ℕ) (s : ShmData)
    → IsValid s
    → IsValid (drop_dead_claim signalled my_pid s)
unfolding drop_dead_claim
drop_dead_claim-IsValid signalled my_pid s v =
    elim (Bool-cases (
      not (s.poller_pid == 0)
      && not (s.poller_pid == my_pid)
      && not (process_alive signalled s.poller_pid))) [
        | inl e ↦
            rw e (same-IsValid s (record s { poller_pid = 0; lock = 0 }) v refl refl refl refl)
        | inr e ↦ rw e v
      ]

Step-IsValid : {s s' : ShmData} → Step s s' → IsValid s → IsValid s'
Step-IsValid (add {s} clock info wf) v = add_decision_locked-IsValid s clock info v wf
Step-IsValid (add_cidr {s} clock info) v = add_cidr_decision_locked-IsValid s clock info v
Step-IsValid (remove {s} clock a dt) v = remove_decision_type_locked-IsValid s v clock a dt
Step-IsValid (remove_cidr {s} clock f p n dt) v =
    remove_cidr_decision_type_locked-IsValid s v clock f p n dt
Step-IsValid (clear {s}) v = clear_all_locked-IsValid s v
Step-IsValid (reload {s} signalled) v = reuse-IsValid signalled s v
Step-IsValid (drop_claim {s} signalled my_pid) v = drop_dead_claim-IsValid signalled my_pid s v
Step-IsValid (take_claim {s} expected new) v =
    same-IsValid s (claim s expected new) v refl refl refl refl

-- Every zone that a run of the writers and of reloads reaches from a fresh zone, whose capacity is
-- positive and below 2^32, keeps the invariant.
pub Reachable-IsValid :
    (capacity : ℕ) (s : ShmData)
    → 0 < capacity
    → capacity < u32_mod
    → Reachable capacity s
    → IsValid s
Reachable-IsValid capacity s positive bounded start = fresh-IsValid capacity positive bounded
Reachable-IsValid capacity s positive bounded (then r step) =
    Step-IsValid step (Reachable-IsValid capacity _ positive bounded r)
