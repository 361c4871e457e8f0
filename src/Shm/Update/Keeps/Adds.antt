-- ===== src/Shm/Update/Keeps/Adds.antt =====
-- The operations on the whole zone keep its invariant.
use ngx_http_crowdsec_module.Base.{
  ℕ, ◌≤◌, ◌<◌, ◌≡◌, refl, sym, inl, inr, true, List, Option, if◌then◌else◌, ltb, length, take,
  arith, Bool-cases, take-take-append, length-take, length-replicate, get_or-replicate,
  count-replicate,
}
use ngx_http_crowdsec_module.DecisionType.{DecisionType, to_bit}
use ngx_http_crowdsec_module.Net.{IpAddr, v4, v6, IsIp}
use ngx_http_crowdsec_module.Origin.{Origin}
use ngx_http_crowdsec_module.Shm.Entry
use ngx_http_crowdsec_module.Shm.Entry.Laws.{to_bit-lt}
use ngx_http_crowdsec_module.Shm.Entry.{
  ShmHashEntry, is_vacant, is_cidr, has_decisions, prune_expired, addr_len,
}
use ngx_http_crowdsec_module.Shm.Find.Search.{find_slot_ip-Found, find_slot_cidr-Found}
use ngx_http_crowdsec_module.Shm.Hash.Laws.{hash_ip_bounds, hash_cidr_bounds}
use ngx_http_crowdsec_module.Shm.Key.{
  Key, ip, cidr, matches, is_live, matches-is_live, Fields-matches,
}
use ngx_http_crowdsec_module.Shm.State.{ShmData, entry_at, mark_prefix_present}
use ngx_http_crowdsec_module.Shm.Table.{replicate-Table, empty_dead}
use ngx_http_crowdsec_module.Shm.Update.Insert.{IsNew, insert_entry-IsValid}
use ngx_http_crowdsec_module.Shm.Update.Keeps.Entries.{
  replace-IsValid, bury-IsValid, bury_absent, merge_entry-SameKey, remove_found-IsValid,
  with_scenario-IsValid, merged-mask,
}
use ngx_http_crowdsec_module.Shm.Update.{
  DecisionInfo, CidrDecisionInfo, Clock, unix_now, with_scenario, ip_entry, cidr_entry,
  update_found, insert_entry, bury, add_decision_locked, add_cidr_decision_locked,
  remove_decision_type_locked, remove_cidr_decision_type_locked, clear_all_locked,
}
use ngx_http_crowdsec_module.Shm.Valid.{IsValid, same-IsValid}

-- A new entry has its key, and is filed under it.
pub ip_entry-IsNew :
    (s : ShmData) (a : IpAddr) (dt : DecisionType) (expires : ℕ) (origin : Origin) (id : ℕ)
    → IsIp a
    → ((j : ℕ) → j < s.capacity → matches (ip a) (entry_at s.entries j) ≡ true → ⊥)
    → IsNew s (ip a) (ip_entry a (to_bit dt) expires origin id)
unfolding ip_entry is_vacant is_cidr
ip_entry-IsNew s (v4 o) dt expires origin id wf absent = record {
  has_key =
      Fields-matches (ip (v4 o)) _ (ground (arith, hash_ip_bounds (v4 o)))
        (refl, refl, take-take-append o _ 4 wf.0);
  filed = refl;
  masked = to_bit-lt dt;
  absent = absent;
}
ip_entry-IsNew s (v6 o) dt expires origin id wf absent = record {
  has_key = Fields-matches (ip (v6 o)) _ (ground (arith, hash_ip_bounds (v6 o))) (refl, refl, refl);
  filed = refl;
  masked = to_bit-lt dt;
  absent = absent;
}

pub cidr_entry-IsNew :
    (s : ShmData) (info : CidrDecisionInfo) (expires id : ℕ)
    → addr_len info.family ≤ length info.network
    → ((j : ℕ)
        → j < s.capacity
        → matches (cidr info.family info.prefix_len info.network) (entry_at s.entries j) ≡ true
        → ⊥)
    → IsNew s (cidr info.family info.prefix_len info.network) (cidr_entry info expires id)
unfolding cidr_entry is_vacant is_cidr
cidr_entry-IsNew s info expires id le absent = record {
  has_key =
      Fields-matches (cidr info.family info.prefix_len info.network) _
        (ground (arith, hash_cidr_bounds info.family info.prefix_len info.network))
        (
          refl,
          refl,
          refl,
          take-take-append (take (addr_len info.family) info.network) _ _
              (omega (arith, length-take (addr_len info.family) info.network)),
        );
  filed = refl;
  masked = to_bit-lt info.decision_type;
  absent = absent;
}

module _ (s : ShmData) (v : IsValid s) (k : Key) where
  -- The branch for a key that is there: a dead entry is buried before `fresh` goes on.
  update_found-IsValid :
      (idx now : ℕ) (dt : DecisionType) (expires : ℕ) (origin : Origin) (id : ℕ)
      (fresh : ShmData → ShmData)
      → idx < s.capacity
      → matches k (entry_at s.entries idx) ≡ true
      → ((s' : ShmData)
          → IsValid s'
          → ((j : ℕ) → j < s'.capacity → matches k (entry_at s'.entries j) ≡ true → ⊥)
          → IsValid (fresh s'))
      → IsValid (update_found s idx now (to_bit dt) expires origin id fresh)
  unfolding update_found
  update_found-IsValid idx now dt expires origin id fresh lt m next =
      let live = matches-is_live k _ m in
      let e = prune_expired (entry_at s.entries idx) now in
      elim (Bool-cases (has_decisions e)) [
        | inl some_left ↦ rw some_left (
            same-IsValid _ _
              (replace-IsValid s v idx lt live _
                (merge_entry-SameKey _ now (to_bit dt) expires origin id)
                (merged-mask _ now expires dt origin id (v.masked idx)))
              refl refl refl refl)
        | inr none_left ↦ rw none_left (
            next (bury s idx e) (bury-IsValid s v idx lt live e)
              (unfold bury in bury_absent s v idx lt live e k m))
      ]

-- add_decision keeps the invariant of the zone for every well-formed address, whether it merges,
-- revives, inserts or evicts.
pub add_decision_locked-IsValid :
    (s : ShmData) (clock : Clock) (info : DecisionInfo)
    → IsValid s
    → IsIp info.ip
    → IsValid (add_decision_locked s clock info)
unfolding add_decision_locked
add_decision_locked-IsValid zone clock info valid wf =
    let s = (with_scenario zone info.scenario).0 in
    let v = with_scenario-IsValid zone info.scenario valid in
    let k = ip info.ip in
    let found = find_slot_ip-Found s.entries s.capacity info.ip v.positive v.table in
    elim found [
      | inl (i, r, lt, m) ↦ rw r (
          update_found-IsValid s v k i _ _ _ _ _ _ lt m (λ s' v' absent.
            insert_entry-IsValid s' _ k _ v' (ip_entry-IsNew s' info.ip _ _ _ _ wf absent)))
      | inr (i, r, absent) ↦
          rw r (insert_entry-IsValid s _ k _ v (ip_entry-IsNew s info.ip _ _ _ _ wf absent))
    ]

-- A network that is too short is not stored.
fresh_cidr-IsValid :
    (s : ShmData)
    → IsValid s
    → (now : ℕ) (info : CidrDecisionInfo) (expires id : ℕ)
    → ((j : ℕ)
        → j < s.capacity
        → matches (cidr info.family info.prefix_len info.network) (entry_at s.entries j) ≡ true
        → ⊥)
    → IsValid (
        if ltb (length info.network) (addr_len info.family)
        then s
        else insert_entry s now (cidr_entry info expires id))
fresh_cidr-IsValid s v now info expires id absent =
    elim (Bool-cases (ltb (length info.network) (addr_len info.family))) [
      | inl short ↦ rw short v
      | inr enough ↦ rw enough (
          insert_entry-IsValid s now (cidr info.family info.prefix_len info.network) _ v
            (cidr_entry-IsNew s info expires id (ground arith) absent))
    ]

-- add_cidr_decision keeps the invariant of the zone whether or not the network has all the bytes
-- of its family.
pub add_cidr_decision_locked-IsValid :
    (s : ShmData) (clock : Clock) (info : CidrDecisionInfo)
    → IsValid s
    → IsValid (add_cidr_decision_locked s clock info)
unfolding add_cidr_decision_locked
add_cidr_decision_locked-IsValid zone clock info valid =
    let marked = record zone {
      cidr_prefixes = mark_prefix_present zone.cidr_prefixes info.prefix_len;
    } in
    let s = (with_scenario marked info.scenario).0 in
    let v =
      with_scenario-IsValid marked info.scenario
        (same-IsValid zone marked valid refl refl refl refl) in
    let k = cidr info.family info.prefix_len info.network in
    let found =
      find_slot_cidr-Found s.entries s.capacity info.family info.prefix_len info.network v.positive
        v.table in
    elim found [
      | inl (i, r, lt, m) ↦ rw r (
          update_found-IsValid s v k i _ _ _ _ _ _ lt m
            (λ s' v' absent. fresh_cidr-IsValid s' v' _ info _ _ absent))
      | inr (i, r, absent) ↦ rw r (fresh_cidr-IsValid s v _ info _ _ absent)
    ]

module _ (s : ShmData) (v : IsValid s) where
  -- remove_decision_type keeps the invariant of the zone, whether the address is found or not and
  -- whether its entry is emptied or not.
  pub remove_decision_type_locked-IsValid :
      (clock : Option ℕ) (a : IpAddr) (dt : DecisionType)
      → IsValid (remove_decision_type_locked s clock a dt)
  unfolding remove_decision_type_locked
  remove_decision_type_locked-IsValid clock a dt =
      elim (find_slot_ip-Found s.entries s.capacity a v.positive v.table) [
        | inl (i, r, lt, m) ↦
            rw r (remove_found-IsValid s v i lt (matches-is_live (ip a) _ m) (unix_now clock) dt)
        | inr (i, r, _) ↦ rw r v
      ]

  -- remove_cidr_decision_type keeps the invariant of the zone, whether the range is found or not
  -- and whether its entry is emptied or not.
  pub remove_cidr_decision_type_locked-IsValid :
      (clock : Option ℕ) (f p : ℕ) (n : List ℕ) (dt : DecisionType)
      → IsValid (remove_cidr_decision_type_locked s clock f p n dt)
  unfolding remove_cidr_decision_type_locked
  remove_cidr_decision_type_locked-IsValid clock f p n dt =
      elim (find_slot_cidr-Found s.entries s.capacity f p n v.positive v.table) [
        | inl (i, r, lt, m) ↦
            rw r
              (remove_found-IsValid s v i lt (matches-is_live (cidr f p n) _ m) (unix_now clock) dt)
        | inr (i, r, _) ↦ rw r v
      ]

  -- Clearing leaves a valid zone.
  pub clear_all_locked-IsValid : IsValid (clear_all_locked s)
  unfolding clear_all_locked
  clear_all_locked-IsValid = record {
    positive = v.positive;
    bounded = v.bounded;
    sized = length-replicate s.capacity _;
    hand = v.positive;
    counted = sym (count-replicate is_live s.capacity _ empty_dead);
    table = replicate-Table s.capacity;
    masked = λ i. rw (get_or-replicate s.capacity i Entry.empty) (omega arith);
  }
