-- ===== src/Shm/Lookup.antt =====
-- src/shm.rs: `lookup_ip`, which tries the address itself and then the ranges that hold it, the
-- most specific first.
use ngx_http_crowdsec_module.Base.{
  ℕ, zero, suc, Bool, true, false, not, ◌&&◌, Option, none, some, List, if◌then◌else◌,
}
use ngx_http_crowdsec_module.DecisionType.{DecisionType}
use ngx_http_crowdsec_module.Net.{IpAddr, v4, v6, apply_ipv4_mask, apply_ipv6_mask}
use ngx_http_crowdsec_module.Origin.{Origin}
use ngx_http_crowdsec_module.Shm.Entry.{ShmHashEntry, decision_type_at, origin_of, is_expired_at}
use ngx_http_crowdsec_module.Shm.Find.{find_slot_ip, find_slot_cidr}
use ngx_http_crowdsec_module.Shm.Hash.{hash_ip, hash_cidr}
use ngx_http_crowdsec_module.Shm.State.{ShmData, entry_at, prefix_is_present}

pub record LookupResult : Type 0 where
  pub found : Bool
  pub decision_type : DecisionType
  pub origin : Origin
  pub scenario_id : ℕ

abbrev pub not_found : LookupResult
not_found = record {
  found = false;
  decision_type = DecisionType.unknown;
  origin = Origin.unknown;
  scenario_id = 0;
}

-- Synthetic ban for AppSec.
abbrev pub appsec_ban : LookupResult
appsec_ban = record {
  found = true;
  decision_type = DecisionType.ban;
  origin = Origin.appsec;
  scenario_id = 0;
}

abbrev pub result_of : ShmHashEntry → ℕ → LookupResult
result_of e now = record {
  found = true;
  decision_type = decision_type_at e now;
  origin = origin_of e;
  scenario_id = e.scenario_id;
}

-- The body of both loops over the prefix lengths.
unfoldable pub lookup_prefix : ShmData → ℕ → ℕ → List ℕ → ℕ → Option LookupResult
lookup_prefix s family prefix_len network now =
    if not (prefix_is_present s.cidr_prefixes prefix_len)
    then none
    else let hash = hash_cidr family prefix_len network in
      let (idx, found) = find_slot_cidr s.entries s.capacity hash family prefix_len network in
      let entry = entry_at s.entries idx in
      if found && not (is_expired_at entry now) then some (result_of entry now) else none

-- `for prefix_len in (0..n).rev()`
unfoldable pub lookup_cidr_v4 : ShmData → List ℕ → ℕ → ℕ → LookupResult
lookup_cidr_v4 s addr now zero = not_found
lookup_cidr_v4 s addr now (suc n) = elim (lookup_prefix s 4 n (apply_ipv4_mask addr n) now) [
  | some r ↦ r
  | none ↦ lookup_cidr_v4 s addr now n
]

unfoldable pub lookup_cidr_v6 : ShmData → List ℕ → ℕ → ℕ → LookupResult
lookup_cidr_v6 s addr now zero = not_found
lookup_cidr_v6 s addr now (suc n) = elim (lookup_prefix s 6 n (apply_ipv6_mask addr n) now) [
  | some r ↦ r
  | none ↦ lookup_cidr_v6 s addr now n
]

abbrev pub lookup_ranges : ShmData → IpAddr → ℕ → LookupResult
lookup_ranges s (v4 o) now = lookup_cidr_v4 s o now 33
lookup_ranges s (v6 o) now = lookup_cidr_v6 s o now 129

-- What `lookup_ip` computes under the read lock.
unfoldable pub lookup_locked : ShmData → IpAddr → ℕ → LookupResult
lookup_locked s ip now =
    let (idx, found) = find_slot_ip s.entries s.capacity (hash_ip ip) ip in
    let entry = entry_at s.entries idx in
    if found && not (is_expired_at entry now) then result_of entry now else lookup_ranges s ip now

-- The zone may not be there yet.
unfoldable pub lookup_ip : Option ShmData → IpAddr → ℕ → LookupResult
lookup_ip none ip now = not_found
lookup_ip (some s) ip now = lookup_locked s ip now
