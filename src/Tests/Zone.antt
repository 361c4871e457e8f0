-- ===== src/Tests/Zone.antt =====
-- The theorems on the zone, at a zone of four slots that a ban is written to.
use ngx_http_crowdsec_module.Base.{
  ℕ, ◌<◌, ◌≡◌, ◌⊎◌, refl, true, false, none, some, List, [], ◌∷◌, arith,
}
use ngx_http_crowdsec_module.DecisionType.{DecisionType}
use ngx_http_crowdsec_module.Net.{IpAddr, v4, IsIp}
use ngx_http_crowdsec_module.Origin
use ngx_http_crowdsec_module.Shm.Entry
use ngx_http_crowdsec_module.Shm.Entry.{ShmHashEntry, is_expired_at}
use ngx_http_crowdsec_module.Shm.Find.Search.{Found, find_slot_ip-Found}
use ngx_http_crowdsec_module.Shm.Find.Vacancy.{evict_clock_cases}
use ngx_http_crowdsec_module.Shm.Find.{find_slot_ip, evict_clock, evict_at}
use ngx_http_crowdsec_module.Shm.Key.{ip, cidr, hash_of, is_live}
use ngx_http_crowdsec_module.Shm.Lookup.{lookup_locked}
use ngx_http_crowdsec_module.Shm.State.{ShmData, entry_at}
use ngx_http_crowdsec_module.Shm.Update.Keeps.{
  add_decision_locked-IsValid, add_cidr_decision_locked-IsValid,
}
use ngx_http_crowdsec_module.Shm.Update.{
  DecisionInfo, CidrDecisionInfo, Clock, add_decision_locked, add_cidr_decision_locked,
  remove_decision_type_locked, remove_cidr_decision_type_locked,
}
use ngx_http_crowdsec_module.Shm.Valid.{IsValid}
use ngx_http_crowdsec_module.Shm.View.Slots.{Answered, lookup_locked-Answered}
use ngx_http_crowdsec_module.Shm.View.Writes.Decisions.{
  add_decision-Adds, add_decision_others, add_cidr_decision-Adds,
}
use ngx_http_crowdsec_module.Shm.View.Writes.Distinct.{ip-Differ}
use ngx_http_crowdsec_module.Shm.View.Writes.Removals.{
  Removes, remove_decision_type-Removes, remove_cidr_decision_type-Removes,
}
use ngx_http_crowdsec_module.Shm.View.Writes.Updates.{Adds}
use ngx_http_crowdsec_module.Shm.View.Writes.{Differ}
use ngx_http_crowdsec_module.Shm.View.{stored}
use ngx_http_crowdsec_module.Shm.Zone.Init.{fresh-IsValid}
use ngx_http_crowdsec_module.Shm.Zone.{fresh}

abbrev home : IpAddr
home = v4 (192 ∷ 0 ∷ 2 ∷ 1 ∷ [])

abbrev away : IpAddr
away = v4 (192 ∷ 0 ∷ 2 ∷ 2 ∷ [])

home-IsIp : IsIp home
home-IsIp = (refl, (omega arith, (omega arith, (omega arith, (omega arith, tt)))))

home_differs : Differ (ip home) (ip away)
home_differs = ip-Differ home away (λ p. ground arith)

abbrev network : List ℕ
network = 192 ∷ 0 ∷ 2 ∷ 0 ∷ []

abbrev clock : Clock
clock = record { at_start = some 1000; at_prune = some 1000; at_evict = some 1000 }

abbrev ban_home : DecisionInfo
ban_home = record {
  ip = home;
  decision_type = DecisionType.ban;
  origin = Origin.cscli;
  scenario = some (115 ∷ 115 ∷ 104 ∷ []);
  duration_secs = some 60;
}

abbrev captcha_range : CidrDecisionInfo
captcha_range = record {
  network = network;
  family = 4;
  prefix_len = 24;
  decision_type = DecisionType.captcha;
  origin = Origin.capi;
  scenario = none;
  duration_secs = none;
}

abbrev empty_zone : ShmData
empty_zone = fresh 4

empty_zone-IsValid : IsValid empty_zone
empty_zone-IsValid = fresh-IsValid 4 (omega arith) (omega arith)

abbrev banned : ShmData
banned = add_decision_locked empty_zone clock ban_home

banned-IsValid : IsValid banned
banned-IsValid = add_decision_locked-IsValid empty_zone clock ban_home empty_zone-IsValid home-IsIp

add_decision-Adds_example :
    Adds (stored empty_zone (ip home)) (stored banned (ip home)) 1000 DecisionType.ban 1060
add_decision-Adds_example = add_decision-Adds empty_zone clock ban_home empty_zone-IsValid home-IsIp

add_decision_others_example : stored banned (ip away) ≡ stored empty_zone (ip away)
add_decision_others_example =
    add_decision_others empty_zone clock ban_home empty_zone-IsValid home-IsIp
      (unfold fresh in omega arith) (ip away) home_differs

add_decision_locked-IsValid_example : IsValid (add_decision_locked banned clock ban_home)
add_decision_locked-IsValid_example =
    add_decision_locked-IsValid banned clock ban_home banned-IsValid home-IsIp

abbrev range : ShmData
range = add_cidr_decision_locked banned clock captcha_range

range-IsValid : IsValid range
range-IsValid = add_cidr_decision_locked-IsValid banned clock captcha_range banned-IsValid

add_cidr_decision-Adds_example :
    Adds
      (stored empty_zone (cidr 4 24 network))
      (stored (add_cidr_decision_locked empty_zone clock captcha_range) (cidr 4 24 network))
      1000
      DecisionType.captcha
      0
add_cidr_decision-Adds_example =
    add_cidr_decision-Adds empty_zone clock captcha_range empty_zone-IsValid (omega arith)

remove_decision_type-Removes_example :
    Removes
      (stored banned (ip home))
      (stored (remove_decision_type_locked banned (some 1010) home DecisionType.ban) (ip home))
      1010
      DecisionType.ban
    × ((l : _)
        → Differ (ip home) l
        → stored (remove_decision_type_locked banned (some 1010) home DecisionType.ban) l
          ≡ stored banned l)
remove_decision_type-Removes_example =
    remove_decision_type-Removes banned banned-IsValid (some 1010) DecisionType.ban home

remove_cidr_decision_type-Removes_example :
    Removes
      (stored range (cidr 4 24 network))
      (stored
        (remove_cidr_decision_type_locked range (some 1010) 4 24 network DecisionType.captcha)
        (cidr 4 24 network))
      1010
      DecisionType.captcha
    × ((l : _)
        → Differ (cidr 4 24 network) l
        → stored
            (remove_cidr_decision_type_locked range (some 1010) 4 24 network DecisionType.captcha)
            l
          ≡ stored range l)
remove_cidr_decision_type-Removes_example =
    remove_cidr_decision_type-Removes range range-IsValid (some 1010) DecisionType.captcha 4 24
      network

find_slot_ip-Found_example :
    Found banned.entries banned.capacity
      (ip home)
      (find_slot_ip banned.entries banned.capacity (hash_of (ip home)) home)
find_slot_ip-Found_example =
    find_slot_ip-Found banned.entries banned.capacity home banned-IsValid.positive
      banned-IsValid.table

evict_clock_cases_example :
    ((i : ℕ) × (evict_clock banned 1010 ≡ some (evict_at banned i, i))
      × (i < banned.capacity)
      × (is_live (entry_at banned.entries i) ≡ true)
      × ((is_expired_at (entry_at banned.entries i) 1010 ≡ true)
          ⊎ ((j : ℕ)
              → j < banned.capacity
              → is_live (entry_at banned.entries j) ≡ true
              → is_expired_at (entry_at banned.entries j) 1010 ≡ false)))
    ⊎ ((evict_clock banned 1010 ≡ none)
        × ((j : ℕ) → j < banned.capacity → is_live (entry_at banned.entries j) ≡ false))
evict_clock_cases_example = evict_clock_cases banned 1010 banned-IsValid.hand

abbrev some_entry : ShmHashEntry
some_entry = record Entry.empty { hash = 77; family = 4; decision_types = 1 }

lookup_locked-Answered_example : Answered banned home 1010 (lookup_locked banned home 1010)
lookup_locked-Answered_example = lookup_locked-Answered banned banned-IsValid home 1010
