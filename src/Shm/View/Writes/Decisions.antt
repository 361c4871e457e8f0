-- ===== src/Shm/View/Writes/Decisions.antt =====
-- `add_decision` and `add_cidr_decision` as updates of the map.
use ngx_http_crowdsec_module.Base.{
  ℕ, ◌≤◌, ◌<◌, ◌≡◌, refl, ◌∙◌, inl, inr, true, false, List, Option, ltb, length, arith,
}
use ngx_http_crowdsec_module.DecisionType.{DecisionType, to_bit}
use ngx_http_crowdsec_module.Net.{IpAddr, v4, v6, IsIp}
use ngx_http_crowdsec_module.Origin.{Origin}
use ngx_http_crowdsec_module.Shm.Entry.Laws.{ban_at, captcha_at, asked_ban, asked_captcha}
use ngx_http_crowdsec_module.Shm.Entry.{ShmHashEntry, addr_len}
use ngx_http_crowdsec_module.Shm.Find.Search.{find_slot_ip-Found, find_slot_cidr-Found}
use ngx_http_crowdsec_module.Shm.Key.{Key, ip, cidr, matches}
use ngx_http_crowdsec_module.Shm.State.{ShmData, entry_at, mark_prefix_present}
use ngx_http_crowdsec_module.Shm.Update.Insert.{IsNew}
use ngx_http_crowdsec_module.Shm.Update.Keeps.{
  with_scenario-IsValid, with_scenario_keeps, ip_entry-IsNew, cidr_entry-IsNew,
}
use ngx_http_crowdsec_module.Shm.Update.{
  DecisionInfo, CidrDecisionInfo, Clock, unix_now, expires_at, with_scenario, ip_entry, cidr_entry,
  add_decision_locked, add_cidr_decision_locked,
}
use ngx_http_crowdsec_module.Shm.Valid.{IsValid, same-IsValid}
use ngx_http_crowdsec_module.Shm.View.Writes.Updates.{
  Adds, new_asked, found-Adds, found_others, absent-Adds,
}
use ngx_http_crowdsec_module.Shm.View.Writes.{Differ, stored_same, insert-stored_other}
use ngx_http_crowdsec_module.Shm.View.{stored}

ip_entry_asked :
    (a : IpAddr) (dt : DecisionType) (x : ℕ) (origin : Origin) (id : ℕ)
    → (ban_at (ip_entry a (to_bit dt) x origin id) ≡ asked_ban dt x)
      × (captcha_at (ip_entry a (to_bit dt) x origin id) ≡ asked_captcha dt x)
unfolding ip_entry
ip_entry_asked (v4 o) dt x origin id = new_asked dt x
ip_entry_asked (v6 o) dt x origin id = new_asked dt x

module _ (zone : ShmData) (valid : IsValid zone) (name : Option (List ℕ)) where
  -- The zone once the scenario's name has its row.
  named-IsValid : IsValid (with_scenario zone name).0
  named-IsValid = with_scenario-IsValid zone name valid

  named_stored : (l : Key) → stored (with_scenario zone name).0 l ≡ stored zone l
  named_stored l =
      let (e, c, _, _, _) = with_scenario_keeps zone name in
      stored_same zone (with_scenario zone name).0 l e c

  named_room :
      zone.count < zone.capacity
      → (with_scenario zone name).0.count < (with_scenario zone name).0.capacity
  named_room room = omega (arith, with_scenario_keeps zone name)

module _ (zone : ShmData) (clock : Clock) (info : DecisionInfo) (valid : IsValid zone)
    (wf : IsIp info.ip) where
  abbrev s : ShmData
  s = (with_scenario zone info.scenario).0

  abbrev v : IsValid s
  v = named-IsValid zone valid info.scenario

  abbrev new_entry : ShmHashEntry
  new_entry =
      ip_entry info.ip (to_bit info.decision_type) (expires_at clock.at_start info.duration_secs)
        info.origin (with_scenario zone info.scenario).1

  IsNew-entry :
      (s' : ShmData)
      → s'.capacity ≡ s.capacity
      → ((j : ℕ) → j < s'.capacity → matches (ip info.ip) (entry_at s'.entries j) ≡ true → ⊥)
      → IsNew s' (ip info.ip) new_entry
  IsNew-entry s' _ absent = ip_entry-IsNew s' info.ip info.decision_type _ info.origin _ wf absent

  -- On a valid zone and for a well-formed address, add_decision turns what is left at that time of
  -- the address's ban and captcha into their join with what the new decision asks for, the longer
  -- deadline winning and no deadline winning over all.
  pub add_decision-Adds :
      Adds
        (stored zone (ip info.ip))
        (stored (add_decision_locked zone clock info) (ip info.ip))
        (unix_now clock.at_prune)
        info.decision_type
        (expires_at clock.at_start info.duration_secs)
  unfolding add_decision_locked
  add_decision-Adds =
      let k = ip info.ip in
      let asked = ip_entry_asked info.ip info.decision_type _ info.origin _ in
      rw (← named_stored zone valid info.scenario k)
        (elim (find_slot_ip-Found s.entries s.capacity info.ip v.positive v.table) [
          | inl (i, r, lt, m) ↦ rw r (
              found-Adds s v k _ _ info.decision_type info.origin _ _ new_entry asked IsNew-entry i
                lt m)
          | inr (i, r, nowhere) ↦ rw r (
              absent-Adds s v k _ _ info.decision_type info.origin 0 _ new_entry asked IsNew-entry
                nowhere)
        ])

  -- While a valid zone is not full, add_decision of a well-formed address changes nothing for keys
  -- that no entry shares with the address.
  pub add_decision_others :
      zone.count < zone.capacity
      → (l : Key) → Differ (ip info.ip) l
      → stored (add_decision_locked zone clock info) l ≡ stored zone l
  unfolding add_decision_locked
  add_decision_others room l differ =
      let k = ip info.ip in
      let asked = ip_entry_asked info.ip info.decision_type _ info.origin _ in
      rw (← named_stored zone valid info.scenario l)
        (elim (find_slot_ip-Found s.entries s.capacity info.ip v.positive v.table) [
          | inl (i, r, lt, m) ↦ rw r (
              found_others s v k _ _ info.decision_type info.origin _ _ new_entry asked IsNew-entry
                i lt m l differ)
          | inr (i, r, nowhere) ↦ rw r (
              insert-stored_other s v k _ new_entry (IsNew-entry s refl nowhere)
                (named_room zone valid info.scenario room) l differ)
        ])

cidr_entry_asked :
    (info : CidrDecisionInfo) (x : ℕ) (id : ℕ)
    → (ban_at (cidr_entry info x id) ≡ asked_ban info.decision_type x)
      × (captcha_at (cidr_entry info x id) ≡ asked_captcha info.decision_type x)
unfolding cidr_entry
cidr_entry_asked info x id = new_asked info.decision_type x

module _ (zone : ShmData) (clock : Clock) (info : CidrDecisionInfo) (valid : IsValid zone)
    (long : addr_len info.family ≤ length info.network) where
  abbrev range : Key
  range = cidr info.family info.prefix_len info.network

  abbrev marked : ShmData
  marked = record zone { cidr_prefixes = mark_prefix_present zone.cidr_prefixes info.prefix_len }

  marked-IsValid : IsValid marked
  marked-IsValid = same-IsValid zone marked valid refl refl refl refl

  abbrev sc : ShmData
  sc = (with_scenario marked info.scenario).0

  abbrev vc : IsValid sc
  vc = named-IsValid marked marked-IsValid info.scenario

  abbrev new_range : ShmHashEntry
  new_range =
      cidr_entry info (expires_at clock.at_start info.duration_secs)
        (with_scenario marked info.scenario).1

  IsNew-range :
      (s' : ShmData)
      → s'.capacity ≡ sc.capacity
      → ((j : ℕ) → j < s'.capacity → matches range (entry_at s'.entries j) ≡ true → ⊥)
      → IsNew s' range new_range
  IsNew-range s' _ absent = cidr_entry-IsNew s' info _ _ long absent

  stored_before : (l : Key) → stored sc l ≡ stored zone l
  stored_before l =
      named_stored marked marked-IsValid info.scenario l ∙ stored_same zone marked l refl refl

  -- On a valid zone add_cidr_decision turns what is left of the ban and captcha of a range, whose
  -- network has all the bytes of its family, into their join with what the new decision asks for.
  pub add_cidr_decision-Adds :
      Adds
        (stored zone range)
        (stored (add_cidr_decision_locked zone clock info) range)
        (unix_now clock.at_prune)
        info.decision_type
        (expires_at clock.at_start info.duration_secs)
  unfolding add_cidr_decision_locked
  add_cidr_decision-Adds =
      let enough : ltb (length info.network) (addr_len info.family) ≡ false = ground arith in
      let asked = cidr_entry_asked info _ _ in
      rw (← stored_before range)
        (elim (find_slot_cidr-Found sc.entries sc.capacity info.family info.prefix_len info.network
          vc.positive vc.table) [
            | inl (i, r, lt, m) ↦
                rw (r, enough)
                  (found-Adds sc vc range _ _ info.decision_type info.origin _ _ new_range asked
                    IsNew-range i lt m)
            | inr (i, r, nowhere) ↦
                rw (r, enough)
                  (absent-Adds sc vc range _ _ info.decision_type info.origin 0 _ new_range asked
                    IsNew-range nowhere)
          ])

  -- While a valid zone is not full, add_cidr_decision of a range whose network has all the bytes
  -- of its family changes nothing for keys that no entry shares with the range.
  pub add_cidr_decision_others :
      zone.count < zone.capacity
      → (l : Key) → Differ range l
      → stored (add_cidr_decision_locked zone clock info) l ≡ stored zone l
  unfolding add_cidr_decision_locked
  add_cidr_decision_others room l differ =
      let enough : ltb (length info.network) (addr_len info.family) ≡ false = ground arith in
      let asked = cidr_entry_asked info _ _ in
      rw (← stored_before l)
        (elim (find_slot_cidr-Found sc.entries sc.capacity info.family info.prefix_len info.network
          vc.positive vc.table) [
            | inl (i, r, lt, m) ↦
                rw (r, enough)
                  (found_others sc vc range _ _ info.decision_type info.origin _ _ new_range asked
                    IsNew-range i lt m l differ)
            | inr (i, r, nowhere) ↦
                rw (r, enough)
                  (insert-stored_other sc vc range _ new_range (IsNew-range sc refl nowhere)
                    (named_room marked marked-IsValid info.scenario room) l differ)
          ])
