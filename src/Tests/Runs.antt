-- ===== src/Tests/Runs.antt =====
-- The theorems on lookups and on runs of the writers, at concrete inputs.
use ngx_http_crowdsec_module.Base.Words.{i64_ge}
use ngx_http_crowdsec_module.Base.{ℕ, ◌≡◌, refl, true, none, some, List, [], ◌∷◌, arith}
use ngx_http_crowdsec_module.DecisionType.{DecisionType}
use ngx_http_crowdsec_module.Net.{v4, IsIp, apply_ipv4_mask}
use ngx_http_crowdsec_module.Origin
use ngx_http_crowdsec_module.Shm.Lookup.{lookup_locked, lookup_prefix, lookup_cidr_v4}
use ngx_http_crowdsec_module.Shm.State.{ShmData}
use ngx_http_crowdsec_module.Shm.Trace.{start, add, clear, then, Reachable-IsValid}
use ngx_http_crowdsec_module.Shm.Update.{DecisionInfo, Clock, add_decision_locked, clear_all_locked}
use ngx_http_crowdsec_module.Shm.Valid.{IsValid}
use ngx_http_crowdsec_module.Shm.View.Answers.{add_decision-lookup_locked}
use ngx_http_crowdsec_module.Shm.View.Ranges.{FirstOf, lookup_cidr_v4-FirstOf}
use ngx_http_crowdsec_module.Shm.Zone.Init.{fresh-IsValid}
use ngx_http_crowdsec_module.Shm.Zone.{fresh}

abbrev octets : List ℕ
octets = 198 ∷ 51 ∷ 100 ∷ 7 ∷ []

octets-IsIp : IsIp (v4 octets)
octets-IsIp = (refl, (omega arith, (omega arith, (omega arith, (omega arith, tt)))))

abbrev noon : Clock
noon = record { at_start = some 1000; at_prune = some 1000; at_evict = some 1000 }

abbrev ban_hour : DecisionInfo
ban_hour = record {
  ip = v4 octets;
  decision_type = DecisionType.ban;
  origin = Origin.capi;
  scenario = none;
  duration_secs = some 3600;
}

abbrev small : ShmData
small = fresh 8

small-IsValid : IsValid small
small-IsValid = fresh-IsValid 8 (omega arith) (omega arith)

add_decision-lookup_locked_example :
    ((lookup_locked (add_decision_locked small noon ban_hour) (v4 octets) 4599).found ≡ true)
    × ((lookup_locked (add_decision_locked small noon ban_hour) (v4 octets) 4599).decision_type
        ≡ DecisionType.ban)
unfolding i64_ge
add_decision-lookup_locked_example =
    add_decision-lookup_locked small noon ban_hour 4599 small-IsValid octets-IsIp refl refl

lookup_cidr_v4-FirstOf_example :
    FirstOf 33
      (λ p. lookup_prefix small 4 p (apply_ipv4_mask octets p) 1001)
      (lookup_cidr_v4 small octets 1001 33)
lookup_cidr_v4-FirstOf_example = lookup_cidr_v4-FirstOf small octets 1001 33

Reachable-IsValid_example : IsValid (clear_all_locked (add_decision_locked small noon ban_hour))
Reachable-IsValid_example =
    Reachable-IsValid 8 (clear_all_locked (add_decision_locked small noon ban_hour)) (omega arith)
      (omega arith) (then (then start (add noon ban_hour octets-IsIp)) clear)
