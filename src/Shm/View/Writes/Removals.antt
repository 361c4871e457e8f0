-- ===== src/Shm/View/Writes/Removals.antt =====
-- `remove_decision_type`, `remove_cidr_decision_type` and `clear_all` as updates of the map.
use ngx_http_crowdsec_module.Base.{
  ℕ, ◌<◌, ◌≡◌, refl, sym, ap, ◌∙◌, inl, inr, true, false, List, Option, none, some, set, arith,
  Bool-cases, get_or-replicate,
}
use ngx_http_crowdsec_module.DecisionType.{DecisionType}
use ngx_http_crowdsec_module.Expiry.Remedy.{absent, at}
use ngx_http_crowdsec_module.Net.{IpAddr}
use ngx_http_crowdsec_module.Shm.Entry
use ngx_http_crowdsec_module.Shm.Entry.Laws.{
  ban_at, captcha_at, prune_expired-at, prune_expired-le, remove_decision_type-absent, keep_ban,
  keep_captcha,
}
use ngx_http_crowdsec_module.Shm.Entry.{
  ShmHashEntry, has_decisions, prune_expired, remove_decision_type,
}
use ngx_http_crowdsec_module.Shm.Find.Search.{find_slot_ip-Found, find_slot_cidr-Found}
use ngx_http_crowdsec_module.Shm.Key.{Key, ip, cidr, matches, matches-is_live}
use ngx_http_crowdsec_module.Shm.State.{ShmData, entry_at}
use ngx_http_crowdsec_module.Shm.Table.{not_live-matches, empty_dead}
use ngx_http_crowdsec_module.Shm.Update.Keeps.{
  replace-IsValid, remove_decision_type-SameKey, removed-mask, clear_all_locked-IsValid,
}
use ngx_http_crowdsec_module.Shm.Update.{
  unix_now, bury, bump_version, remove_found, remove_decision_type_locked,
  remove_cidr_decision_type_locked, clear_all_locked,
}
use ngx_http_crowdsec_module.Shm.Valid.{IsValid}
use ngx_http_crowdsec_module.Shm.View.Reads.{stored-eq-some, stored-eq-none}
use ngx_http_crowdsec_module.Shm.View.Writes.{
  Differ, stored_same, write-stored_self, write-stored_other, bury-stored_self, bury-stored_other,
}
use ngx_http_crowdsec_module.Shm.View.{stored, ban_in, captcha_in}

-- What removing type `dt` at time `t` makes of a key's remediations.
abbrev pub Removes : Option ShmHashEntry → Option ShmHashEntry → ℕ → DecisionType → Type 0
Removes old new t dt =
    (ban_in new ≡ keep_ban dt (at (ban_in old) t))
    × (captcha_in new ≡ keep_captcha dt (at (captcha_in old) t))

abbrev removed : ShmHashEntry → ℕ → DecisionType → ShmHashEntry
removed e t dt = remove_decision_type (prune_expired e t) dt

removed-Removes :
    (e : ShmHashEntry) (t : ℕ) (dt : DecisionType)
    → e.decision_types < 4
    → Removes (some e) (some (removed e t dt)) t dt
removed-Removes e t dt h =
    let (b, c) = prune_expired-at e t (omega arith) in
    let le = prune_expired-le e t (omega arith) in
    let (rb, rc, _) = remove_decision_type-absent (prune_expired e t) dt (omega arith) in
    (rb ∙ ap (keep_ban dt) b, rc ∙ ap (keep_captcha dt) c)

-- An entry with no bit left holds nothing.
emptied-Removes :
    (e : ShmHashEntry) (t : ℕ) (dt : DecisionType)
    → e.decision_types < 4
    → has_decisions (removed e t dt) ≡ false
    → Removes (some e) none t dt
emptied-Removes e t dt h none_left =
    let z : (removed e t dt).decision_types ≡ 0 = unfold has_decisions in ground arith in
    let b : ban_at (removed e t dt) ≡ absent = rw z in
    let c : captcha_at (removed e t dt) ≡ absent = rw z in
    let (rb, rc) = removed-Removes e t dt h in (sym b ∙ rb, sym c ∙ rc)

module _ (s : ShmData) (v : IsValid s) (k : Key) (t : ℕ) (dt : DecisionType) (i : ℕ)
    (lt : i < s.capacity) (m : matches k (entry_at s.entries i) ≡ true) where
  abbrev left : ShmHashEntry
  left = removed (entry_at s.entries i) t dt

  abbrev kept : ShmData
  kept = record s { entries = set s.entries i left }

  left_key : (l : Key) → matches l left ≡ matches l (entry_at s.entries i)
  left_key l = (remove_decision_type-SameKey (entry_at s.entries i) t dt).same_keys l

  kept-IsValid : IsValid kept
  kept-IsValid =
      replace-IsValid s v i lt (matches-is_live k _ m) left (remove_decision_type-SameKey _ t dt)
        (removed-mask _ t dt (v.masked i))

  remove_found-Removes : Removes (stored s k) (stored (remove_found s i t dt) k) t dt
  unfolding remove_found
  remove_found-Removes =
      let old = stored-eq-some s v k i lt m in
      elim (Bool-cases (has_decisions left)) [
        | inl some_left ↦
            let after =
              write-stored_self s kept i left v kept-IsValid lt refl refl k (left_key k ∙ m) in
            rw (some_left, stored_same kept (bump_version kept) k refl refl, old, after)
              (removed-Removes _ t dt (v.masked i))
        | inr none_left ↦
            let after = bury-stored_self s v k i left lt m in
            rw
              (
                none_left,
                stored_same (bury s i left) (bump_version (bury s i left)) k refl refl,
                old,
                after,
              )
              (emptied-Removes _ t dt (v.masked i) none_left)
      ]

  remove_found_others : (l : Key) → Differ k l → stored (remove_found s i t dt) l ≡ stored s l
  unfolding remove_found
  remove_found_others l differ = elim (Bool-cases (has_decisions left)) [
    | inl some_left ↦ rw some_left (
        stored_same kept (bump_version kept) l refl refl
        ∙ write-stored_other s kept i left v kept-IsValid lt refl refl l (rw left_key (differ _ m))
            (differ _ m))
    | inr none_left ↦ rw none_left (
        stored_same (bury s i left) (bump_version (bury s i left)) l refl refl
        ∙ bury-stored_other s v k i left lt m l differ)
  ]

-- Nothing to remove.
nothing-Removes : (t : ℕ) (dt : DecisionType) → Removes none none t dt
nothing-Removes t DecisionType.ban = (refl, refl)
nothing-Removes t DecisionType.captcha = (refl, refl)
nothing-Removes t DecisionType.unknown = (refl, refl)

module _ (s : ShmData) (v : IsValid s) (clock : Option ℕ) (dt : DecisionType) where
  -- On a valid zone remove_decision_type takes the one remediation from the address, keeps what
  -- has not expired of the other, and changes nothing for keys that no entry shares with the
  -- address.
  pub remove_decision_type-Removes :
      (a : IpAddr)
      → Removes
          (stored s (ip a))
          (stored (remove_decision_type_locked s clock a dt) (ip a))
          (unix_now clock)
          dt
        × ((l : Key)
            → Differ (ip a) l
            → stored (remove_decision_type_locked s clock a dt) l ≡ stored s l)
  unfolding remove_decision_type_locked
  remove_decision_type-Removes a =
      elim (find_slot_ip-Found s.entries s.capacity a v.positive v.table) [
        | inl (i, r, lt, m) ↦ rw r (
          remove_found-Removes s v (ip a) (unix_now clock) dt i lt m,
          remove_found_others s v (ip a) (unix_now clock) dt i lt m,
        )
        | inr (i, r, nowhere) ↦ rw r (
          rw (stored-eq-none s v (ip a) nowhere) (nothing-Removes (unix_now clock) dt),
          λ l _. refl,
        )
      ]

  -- On a valid zone remove_cidr_decision_type takes the one remediation from the range, keeps what
  -- has not expired of the other, and changes nothing for keys that no entry shares with the
  -- range.
  pub remove_cidr_decision_type-Removes :
      (f p : ℕ) (n : List ℕ)
      → Removes
          (stored s (cidr f p n))
          (stored (remove_cidr_decision_type_locked s clock f p n dt) (cidr f p n))
          (unix_now clock)
          dt
        × ((l : Key)
            → Differ (cidr f p n) l
            → stored (remove_cidr_decision_type_locked s clock f p n dt) l ≡ stored s l)
  unfolding remove_cidr_decision_type_locked
  remove_cidr_decision_type-Removes f p n =
      elim (find_slot_cidr-Found s.entries s.capacity f p n v.positive v.table) [
        | inl (i, r, lt, m) ↦ rw r (
          remove_found-Removes s v (cidr f p n) (unix_now clock) dt i lt m,
          remove_found_others s v (cidr f p n) (unix_now clock) dt i lt m,
        )
        | inr (i, r, nowhere) ↦ rw r (
          rw (stored-eq-none s v (cidr f p n) nowhere) (nothing-Removes (unix_now clock) dt),
          λ l _. refl,
        )
      ]

-- After clear_all a valid zone stores nothing for any key.
pub clear_all-stored : (s : ShmData) → IsValid s → (k : Key) → stored (clear_all_locked s) k ≡ none
unfolding clear_all_locked
clear_all-stored s v k =
    stored-eq-none (clear_all_locked s) (clear_all_locked-IsValid s v) k (λ j jr.
      rw (get_or-replicate s.capacity j Entry.empty) (not_live-matches k Entry.empty empty_dead))
