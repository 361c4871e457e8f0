-- ===== src/Shm/View/Answers.antt =====
-- What `lookup_ip` answers after a write.
use ngx_http_crowdsec_module.Base.Bits.{zero-bit_and_eq}
use ngx_http_crowdsec_module.Base.Words.{i64_ge}
use ngx_http_crowdsec_module.Base.{
  ℕ, zero, suc, ◌/◌, ◌%◌, ◌^◌, ◌≡◌, refl, inl, inr, true, false, none, List, arith, replicate,
  get_or-replicate, false≢true,
}
use ngx_http_crowdsec_module.DecisionType.{DecisionType}
use ngx_http_crowdsec_module.Expiry.Remedy.{Remedy, absent, join, is_live, of_deadline}
use ngx_http_crowdsec_module.Net.{IpAddr, v4, v6, IsIp, apply_ipv4_mask, apply_ipv6_mask}
use ngx_http_crowdsec_module.Shm.Entry.Laws.{decision_type_at-is_live, ban_at}
use ngx_http_crowdsec_module.Shm.Entry.{decision_type_at, is_expired_at}
use ngx_http_crowdsec_module.Shm.Key.{ip}
use ngx_http_crowdsec_module.Shm.Lookup.{
  not_found, lookup_locked, lookup_ranges, lookup_prefix, lookup_cidr_v4, lookup_cidr_v6,
}
use ngx_http_crowdsec_module.Shm.State.{ShmData, entry_at, prefix_is_present}
use ngx_http_crowdsec_module.Shm.Update.Keeps.{add_decision_locked-IsValid}
use ngx_http_crowdsec_module.Shm.Update.{
  DecisionInfo, Clock, expires_at, add_decision_locked, clear_all_locked,
}
use ngx_http_crowdsec_module.Shm.Valid.{IsValid}
use ngx_http_crowdsec_module.Shm.View.Reads.{stored_cases, lookup_locked-answer}
use ngx_http_crowdsec_module.Shm.View.Writes.Decisions.{add_decision-Adds}
use ngx_http_crowdsec_module.Shm.View.Writes.Removals.{clear_all-stored}
use ngx_http_crowdsec_module.Shm.View.{stored, ban_in}

join_live : (r q : Remedy) (now : ℕ) → is_live q now ≡ true → is_live (join r q) now ≡ true
unfolding i64_ge
join_live absent q now h = h
join_live Remedy.unlimited q now h = refl
join_live (Remedy.until a) absent now h = absurd (false≢true h)
join_live (Remedy.until a) Remedy.unlimited now h = refl
join_live (Remedy.until a) (Remedy.until b) now h = ground arith

-- A key with a live ban is answered with a ban.
live_ban-answer :
    (s : ShmData) (a : IpAddr) (now : ℕ)
    → IsValid s
    → is_live (ban_in (stored s (ip a))) now ≡ true
    → ((lookup_locked s a now).found ≡ true)
      × ((lookup_locked s a now).decision_type ≡ DecisionType.ban)
live_ban-answer s a now v live = elim (stored_cases s v (ip a)) [
  | inl (i, lt, _, here) ↦
      let (type, expired) = decision_type_at-is_live (entry_at s.entries i) now (v.masked i) in
      let banned : is_live (ban_at (entry_at s.entries i)) now ≡ true = rw here at live in
      let still : is_expired_at (entry_at s.entries i) now ≡ false = ground arith in
      let is_ban : decision_type_at (entry_at s.entries i) now ≡ DecisionType.ban = ground arith in
      rw (lookup_locked-answer s a now, here, still, is_ban) (refl, refl)
  | inr (_, nothing) ↦ absurd (false≢true (rw nothing at live))
]

-- After add_decision of a ban for a well-formed address on a valid zone a lookup of the address
-- finds a ban at every time that the new deadline has not passed, and at every time where there is
-- none.
pub add_decision-lookup_locked :
    (s : ShmData) (clock : Clock) (info : DecisionInfo) (now : ℕ)
    → IsValid s
    → IsIp info.ip
    → info.decision_type ≡ DecisionType.ban
    → is_live (of_deadline (expires_at clock.at_start info.duration_secs)) now ≡ true
    → ((lookup_locked (add_decision_locked s clock info) info.ip now).found ≡ true)
      × ((lookup_locked (add_decision_locked s clock info) info.ip now).decision_type
          ≡ DecisionType.ban)
add_decision-lookup_locked s clock info now v wf type live =
    let (ban, _) = add_decision-Adds s clock info v wf in
    live_ban-answer (add_decision_locked s clock info) info.ip now
      (add_decision_locked-IsValid s clock info v wf)
      (rw (ban, type)
        (join_live _ (of_deadline (expires_at clock.at_start info.duration_secs)) now live))

-- No prefix length is marked in the words that `clear_all` leaves.
nothing_marked : (p : ℕ) → prefix_is_present (replicate 3 0) p ≡ false
unfolding prefix_is_present
nothing_marked p =
    ground (arith, get_or-replicate {A = ℕ} 3 (p / 64) 0, zero-bit_and_eq (2 ^ (p % 64)))

lookup_cidr_v4_unmarked :
    (s : ShmData) (o : List ℕ) (now n : ℕ)
    → ((p : ℕ) → prefix_is_present s.cidr_prefixes p ≡ false)
    → lookup_cidr_v4 s o now n ≡ not_found
unfolding lookup_cidr_v4
lookup_cidr_v4_unmarked s o now zero none_marked = refl
lookup_cidr_v4_unmarked s o now (suc n) none_marked =
    let silent : lookup_prefix s 4 n (apply_ipv4_mask o n) now ≡ none =
      unfold lookup_prefix in rw (none_marked n) refl in
    rw (silent, lookup_cidr_v4) (lookup_cidr_v4_unmarked s o now n none_marked)

lookup_cidr_v6_unmarked :
    (s : ShmData) (o : List ℕ) (now n : ℕ)
    → ((p : ℕ) → prefix_is_present s.cidr_prefixes p ≡ false)
    → lookup_cidr_v6 s o now n ≡ not_found
unfolding lookup_cidr_v6
lookup_cidr_v6_unmarked s o now zero none_marked = refl
lookup_cidr_v6_unmarked s o now (suc n) none_marked =
    let silent : lookup_prefix s 6 n (apply_ipv6_mask o n) now ≡ none =
      unfold lookup_prefix in rw (none_marked n) refl in
    rw (silent, lookup_cidr_v6) (lookup_cidr_v6_unmarked s o now n none_marked)

lookup_ranges_unmarked :
    (s : ShmData) (a : IpAddr) (now : ℕ)
    → ((p : ℕ) → prefix_is_present s.cidr_prefixes p ≡ false)
    → lookup_ranges s a now ≡ not_found
lookup_ranges_unmarked s (v4 o) now h = lookup_cidr_v4_unmarked s o now 33 h
lookup_ranges_unmarked s (v6 o) now h = lookup_cidr_v6_unmarked s o now 129 h

-- After clear_all on a valid zone every lookup finds nothing.
pub clear_all-lookup_locked :
    (s : ShmData) (a : IpAddr) (now : ℕ)
    → IsValid s
    → lookup_locked (clear_all_locked s) a now ≡ not_found
clear_all-lookup_locked s a now v =
    rw (lookup_locked-answer (clear_all_locked s) a now, clear_all-stored s v (ip a))
      (lookup_ranges_unmarked (clear_all_locked s) a now
        (unfold clear_all_locked in nothing_marked))
