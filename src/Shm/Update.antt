-- ===== src/Shm/Update.antt =====
-- src/shm.rs: the operations that change the store. Each runs under the write lock.
pub mod Insert
pub mod Keeps
use ngx_http_crowdsec_module.Base.{
  ℕ, ◌+◌, ◌-◌, ◌%◌, ◌^◌, Bool, true, false, not, ◌&&◌, Option, none, some, List, ◌++◌, ltb, ◌==◌,
  if◌then◌else◌, length, get_or, set, take, drop, replicate, bit_or,
}
use ngx_http_crowdsec_module.Base.Words.{u32_mod, u64_mod, i64_add}
use ngx_http_crowdsec_module.DecisionType.{DecisionType, to_bit}
use ngx_http_crowdsec_module.Expiry
use ngx_http_crowdsec_module.Expiry.{merge}
use ngx_http_crowdsec_module.Net.{IpAddr, v4, v6, cidr_params_valid}
use ngx_http_crowdsec_module.Origin
use ngx_http_crowdsec_module.Origin.{Origin}
use ngx_http_crowdsec_module.Shm.Entry
use ngx_http_crowdsec_module.Shm.Entry.{
  ShmHashEntry, flag_is_cidr, addr_len, mark_tombstone, has_decisions, prune_expired,
  remove_decision_type,
}
use ngx_http_crowdsec_module.Shm.Find.{find_slot_ip, find_slot_cidr, find_vacant_slot, evict_clock}
use ngx_http_crowdsec_module.Shm.Hash.{hash_ip, hash_cidr}
use ngx_http_crowdsec_module.Shm.State.{
  ShmData, entry_at, mark_prefix_present, get_or_create_scenario_id,
}

pub record DecisionInfo : Type 0 where
  pub ip : IpAddr
  pub decision_type : DecisionType
  pub origin : Origin
  pub scenario : Option (List ℕ)
  pub duration_secs : Option ℕ

pub record CidrDecisionInfo : Type 0 where
  pub network : List ℕ
  pub family : ℕ
  pub prefix_len : ℕ
  pub decision_type : DecisionType
  pub origin : Origin
  pub scenario : Option (List ℕ)
  pub duration_secs : Option ℕ

-- The readings of the system clock that one call makes, each in seconds since the epoch, or `none`
-- for a clock that is set before it.
pub record Clock : Type 0 where
  pub at_start : Option ℕ
  pub at_prune : Option ℕ
  pub at_evict : Option ℕ

abbrev pub unix_now : Option ℕ → ℕ
unix_now none = 0
unix_now (some t) = t

-- The deadline of a new decision: zero, for none, where there is no duration or no time.
abbrev pub expires_at : Option ℕ → Option ℕ → ℕ
expires_at now none = 0
expires_at none (some d) = 0
expires_at (some t) (some d) = i64_add t d

abbrev pub with_scenario : ShmData → Option (List ℕ) → ShmData × ℕ
with_scenario s none = (s, 0)
with_scenario s (some name) = get_or_create_scenario_id s name

abbrev pub bump_version : ShmData → ShmData
bump_version s = record s { version = (s.version + 1) % u64_mod }

-- `entry.mark_tombstone(); count = count.saturating_sub(1)`
unfoldable pub bury : ShmData → ℕ → ShmHashEntry → ShmData
bury s idx entry = record s {
  entries = set s.entries idx (mark_tombstone entry);
  count = s.count - 1;
}

-- A decision joins those that an entry has already.
unfoldable pub merge_entry : ShmHashEntry → ℕ → ℕ → Origin → ℕ → ShmHashEntry
merge_entry entry bit expires origin scenario_id = record entry {
  expires = merge entry.expires entry.decision_types bit expires;
  decision_types = bit_or entry.decision_types bit;
  origin = Origin.to_u8 origin;
  scenario_id = if scenario_id == 0 then entry.scenario_id else scenario_id;
}

abbrev pub store : ShmData → ℕ → ShmHashEntry → ShmData
store s slot new_entry =
    bump_version
      (record s { entries = set s.entries slot new_entry; count = (s.count + 1) % u32_mod })

-- The new entry goes to a vacant slot, or to that of an evicted entry.
unfoldable pub insert_entry : ShmData → ℕ → ShmHashEntry → ShmData
insert_entry s now new_entry = elim (find_vacant_slot s.entries s.capacity new_entry.hash) [
  | some slot ↦ store s slot new_entry
  | none ↦ elim (evict_clock s now) [ some (s', evicted) ↦ store s' evicted new_entry | none ↦ s ]
]

-- The entry that a key has already: dead, it is buried and `fresh` goes on; else the decision
-- joins it.
unfoldable pub update_found : ShmData → ℕ → ℕ → ℕ → ℕ → Origin → ℕ → (ShmData → ShmData) → ShmData
update_found s idx now bit expires origin scenario_id fresh =
    let entry = prune_expired (entry_at s.entries idx) now in
    if not (has_decisions entry)
    then fresh (bury s idx entry)
    else bump_version (record s {
      entries = set s.entries idx (merge_entry entry bit expires origin scenario_id);
    })

abbrev base_entry : ℕ → ℕ → ℕ → Origin → ℕ → ShmHashEntry
base_entry hash bit expires origin scenario_id = record Entry.empty {
  hash = hash;
  decision_types = bit;
  origin = Origin.to_u8 origin;
  expires = merge Expiry.empty 0 bit expires;
  scenario_id = scenario_id;
}

unfoldable pub ip_entry : IpAddr → ℕ → ℕ → Origin → ℕ → ShmHashEntry
ip_entry (v4 o) bit expires origin scenario_id =
    record (base_entry (hash_ip (v4 o)) bit expires origin scenario_id) {
      family = 4;
      prefix_len = 32;
      addr = o ++ replicate 12 0;
    }
ip_entry (v6 o) bit expires origin scenario_id =
    record (base_entry (hash_ip (v6 o)) bit expires origin scenario_id) {
      family = 6;
      prefix_len = 128;
      addr = o;
    }

unfoldable pub add_decision_locked : ShmData → Clock → DecisionInfo → ShmData
add_decision_locked zone clock info =
    let expires = expires_at clock.at_start info.duration_secs in
    let (s, scenario_id) = with_scenario zone info.scenario in
    let bit = to_bit info.decision_type in
    let new_entry = ip_entry info.ip bit expires info.origin scenario_id in
    let fresh = λ (s' : ShmData). insert_entry s' (unix_now clock.at_evict) new_entry in
    let (idx, found) = find_slot_ip s.entries s.capacity (hash_ip info.ip) info.ip in
    if found
    then update_found s idx (unix_now clock.at_prune) bit expires info.origin scenario_id fresh
    else fresh s

unfoldable pub cidr_entry : CidrDecisionInfo → ℕ → ℕ → ShmHashEntry
cidr_entry info expires scenario_id =
    let len = addr_len info.family in
    let hash = hash_cidr info.family info.prefix_len info.network in
    record (base_entry hash (to_bit info.decision_type) expires info.origin scenario_id) {
      family = info.family;
      prefix_len = info.prefix_len;
      flags = flag_is_cidr;
      addr = take len info.network ++ replicate (16 - len) 0;
    }

unfoldable pub add_cidr_decision_locked : ShmData → Clock → CidrDecisionInfo → ShmData
add_cidr_decision_locked zone clock info =
    let expires = expires_at clock.at_start info.duration_secs in
    let marked = record zone {
      cidr_prefixes = mark_prefix_present zone.cidr_prefixes info.prefix_len;
    } in
    let (s, scenario_id) = with_scenario marked info.scenario in
    let bit = to_bit info.decision_type in
    let hash = hash_cidr info.family info.prefix_len info.network in
    let fresh = λ (s' : ShmData).
      if ltb (length info.network) (addr_len info.family)
      then s'
      else insert_entry s' (unix_now clock.at_evict) (cidr_entry info expires scenario_id) in
    let (idx, found) =
      find_slot_cidr s.entries s.capacity hash info.family info.prefix_len info.network in
    if found
    then update_found s idx (unix_now clock.at_prune) bit expires info.origin scenario_id fresh
    else fresh s

-- The entry loses one remediation, and its slot once it has none left.
unfoldable pub remove_found : ShmData → ℕ → ℕ → DecisionType → ShmData
remove_found s idx now decision_type =
    let entry = remove_decision_type (prune_expired (entry_at s.entries idx) now) decision_type in
    bump_version (
      if not (has_decisions entry)
      then bury s idx entry
      else record s { entries = set s.entries idx entry })

unfoldable pub remove_decision_type_locked : ShmData → Option ℕ → IpAddr → DecisionType → ShmData
remove_decision_type_locked s clock ip decision_type =
    let (idx, found) = find_slot_ip s.entries s.capacity (hash_ip ip) ip in
    if found then remove_found s idx (unix_now clock) decision_type else s

unfoldable pub remove_cidr_decision_type_locked :
    ShmData → Option ℕ → ℕ → ℕ → List ℕ → DecisionType → ShmData
remove_cidr_decision_type_locked s clock family prefix_len network decision_type =
    let hash = hash_cidr family prefix_len network in
    let (idx, found) = find_slot_cidr s.entries s.capacity hash family prefix_len network in
    if found then remove_found s idx (unix_now clock) decision_type else s

unfoldable pub clear_all_locked : ShmData → ShmData
clear_all_locked s = bump_version (record s {
  entries = replicate s.capacity Entry.empty;
  count = 0;
  clock_hand = 0;
  cidr_prefixes = replicate 3 0;
})

-- The same on a zone that may not be there yet.
abbrev on_zone : Option ShmData → (ShmData → ShmData) → Option ShmData
on_zone none op = none
on_zone (some s) op = some (op s)

unfoldable pub add_decision : Option ShmData → Clock → DecisionInfo → Option ShmData
add_decision zone clock info = on_zone zone (λ s. add_decision_locked s clock info)

unfoldable pub add_cidr_decision : Option ShmData → Clock → CidrDecisionInfo → Option ShmData
add_cidr_decision zone clock info =
    if not (cidr_params_valid info.family info.prefix_len info.network)
    then zone
    else on_zone zone (λ s. add_cidr_decision_locked s clock info)

unfoldable pub remove_decision : Option ShmData → Option ℕ → IpAddr → DecisionType → Option ShmData
remove_decision zone clock ip dt = on_zone zone (λ s. remove_decision_type_locked s clock ip dt)

unfoldable pub remove_cidr_decision :
    Option ShmData → Option ℕ → ℕ → ℕ → List ℕ → DecisionType → Option ShmData
remove_cidr_decision zone clock family prefix_len network dt =
    on_zone zone (λ s. remove_cidr_decision_type_locked s clock family prefix_len network dt)

unfoldable pub clear_all : Option ShmData → Option ShmData
clear_all zone = on_zone zone (λ s. clear_all_locked s)
