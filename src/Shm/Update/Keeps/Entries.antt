-- ===== src/Shm/Update/Keeps/Entries.antt =====
-- What the operations do to one entry leaves its key alone, and the zone stays valid.
use ngx_http_crowdsec_module.Base.{
  ℕ, ◌<◌, ◌≡◌, refl, ◌∙◌, inl, inr, true, false, List, Option, none, some, set, arith, Bool-cases,
  count-pos,
}
use ngx_http_crowdsec_module.DecisionType.{DecisionType, to_bit}
use ngx_http_crowdsec_module.Net.{v4, v6}
use ngx_http_crowdsec_module.Origin.{Origin}
use ngx_http_crowdsec_module.Shm.Entry
use ngx_http_crowdsec_module.Shm.Entry.Laws.{
  or_bit-lt, prune_expired-le, remove_decision_type-absent,
}
use ngx_http_crowdsec_module.Shm.Entry.{
  ShmHashEntry, is_empty, is_vacant, is_cidr, matches_ip, matches_cidr, has_decisions,
  prune_expired, remove_decision_type, mark_tombstone,
}
use ngx_http_crowdsec_module.Shm.Key.{Key, ip, cidr, matches, is_live}
use ngx_http_crowdsec_module.Shm.State.{ShmData, entry_at, get_or_create_scenario_id}
use ngx_http_crowdsec_module.Shm.Table.{entry_at-set_cases, same_key-Fits, not_live-matches}
use ngx_http_crowdsec_module.Shm.Update.{merge_entry, bury, remove_found, with_scenario}
use ngx_http_crowdsec_module.Shm.Valid.{
  IsValid, write-IsValid, same-IsValid, mark_tombstone-dead, mark_tombstone-Fits,
}

-- The two entries have the same keys, and are filed alike.
pub record SameKey (e f : ShmHashEntry) : Type 0 where
  pub same_hash : e.hash ≡ f.hash
  pub same_live : is_live e ≡ is_live f
  pub same_keys : (k : Key) → matches k e ≡ matches k f

pruned_keys : (e : ShmHashEntry) (now : ℕ) (k : Key) → matches k (prune_expired e now) ≡ matches k e
unfolding matches_ip matches_cidr prune_expired is_vacant is_cidr
pruned_keys e now (ip (v4 o)) = refl
pruned_keys e now (ip (v6 o)) = refl
pruned_keys e now (cidr f p n) = refl

merged_keys :
    (e : ShmHashEntry) (bit expires : ℕ) (origin : Origin) (id : ℕ) (k : Key)
    → matches k (merge_entry e bit expires origin id) ≡ matches k e
unfolding matches_ip matches_cidr merge_entry is_vacant is_cidr
merged_keys e bit expires origin id (ip (v4 o)) = refl
merged_keys e bit expires origin id (ip (v6 o)) = refl
merged_keys e bit expires origin id (cidr f p n) = refl

removed_keys :
    (e : ShmHashEntry) (dt : DecisionType) (k : Key)
    → matches k (remove_decision_type e dt) ≡ matches k e
unfolding matches_ip matches_cidr remove_decision_type is_vacant is_cidr
removed_keys e dt (ip (v4 o)) = refl
removed_keys e dt (ip (v6 o)) = refl
removed_keys e dt (cidr f p n) = refl

pub merge_entry-SameKey :
    (e : ShmHashEntry) (now bit expires : ℕ) (origin : Origin) (id : ℕ)
    → SameKey (merge_entry (prune_expired e now) bit expires origin id) e
unfolding merge_entry prune_expired is_vacant
merge_entry-SameKey e now bit expires origin id = record {
  same_hash = refl;
  same_live = refl;
  same_keys = λ k. merged_keys _ bit expires origin id k ∙ pruned_keys e now k;
}

pub remove_decision_type-SameKey :
    (e : ShmHashEntry) (now : ℕ) (dt : DecisionType)
    → SameKey (remove_decision_type (prune_expired e now) dt) e
unfolding remove_decision_type prune_expired is_vacant
remove_decision_type-SameKey e now dt = record {
  same_hash = refl;
  same_live = refl;
  same_keys = λ k. removed_keys _ dt k ∙ pruned_keys e now k;
}

pub merged-mask :
    (e : ShmHashEntry) (now expires : ℕ) (dt : DecisionType) (origin : Origin) (id : ℕ)
    → e.decision_types < 4
    → (merge_entry (prune_expired e now) (to_bit dt) expires origin id).decision_types < 4
unfolding merge_entry
merged-mask e now expires dt origin id h = or_bit-lt dt _ (omega (arith, prune_expired-le e now))

pub removed-mask :
    (e : ShmHashEntry) (now : ℕ) (dt : DecisionType)
    → e.decision_types < 4
    → (remove_decision_type (prune_expired e now) dt).decision_types < 4
removed-mask e now dt h =
    let pruned : (prune_expired e now).decision_types < 4 = omega (arith, prune_expired-le e now) in
    let (_, _, le) = remove_decision_type-absent (prune_expired e now) dt (omega arith) in
    omega arith

live-is_empty : (e : ShmHashEntry) → is_live e ≡ true → is_empty e ≡ false
unfolding is_vacant
live-is_empty e h = ground arith

module _ (s : ShmData) (v : IsValid s) (idx : ℕ) (lt : idx < s.capacity)
    (live : is_live (entry_at s.entries idx) ≡ true) where
  -- An entry with the key of the live one in its slot may replace it.
  pub replace-IsValid :
      (e : ShmHashEntry)
      → SameKey e (entry_at s.entries idx)
      → e.decision_types < 4
      → IsValid (record s { entries = set s.entries idx e })
  replace-IsValid e k mask =
      let alive : is_live e ≡ true = k.same_live ∙ live in
      write-IsValid s (record s { entries = set s.entries idx e }) idx e v lt
        (same_key-Fits idx e v.table lt live (live-is_empty e alive) k.same_hash k.same_keys) mask
        refl refl v.hand (rw (alive, live) refl)

  -- A live entry may be buried.
  pub bury-IsValid : (e : ShmHashEntry) → IsValid (bury s idx e)
  unfolding bury
  bury-IsValid e =
      let (dead, _, mask) = mark_tombstone-dead e in
      let some_live = count-pos is_live s.entries idx Entry.empty (rw v.sized lt) live in
      write-IsValid s (bury s idx e) idx (mark_tombstone e) v lt (mark_tombstone-Fits idx e) mask
        refl refl v.hand (rw (live, dead) (omega (arith, v.counted, some_live)))

  -- After that no slot has its key.
  pub bury_absent :
      (e : ShmHashEntry) (k : Key)
      → matches k (entry_at s.entries idx) ≡ true
      → (j : ℕ) → j < s.capacity
      → matches k (entry_at (bury s idx e).entries j) ≡ true
      → ⊥
  unfolding bury
  bury_absent e k m j jr =
      elim (entry_at-set_cases s.capacity s.entries idx (mark_tombstone e) v.sized lt j) [
        | inl (_, now) ↦ rw now (not_live-matches k _ (mark_tombstone-dead e).0)
        | inr (ne, now) ↦ rw now (λ n. ne (v.table.unique idx j k lt jr m n))
      ]

  -- Removing a remediation replaces or buries the entry.
  pub remove_found-IsValid : (now : ℕ) (dt : DecisionType) → IsValid (remove_found s idx now dt)
  unfolding remove_found
  remove_found-IsValid now dt =
      let e = remove_decision_type (prune_expired (entry_at s.entries idx) now) dt in
      let mask = removed-mask (entry_at s.entries idx) now dt (v.masked idx) in
      elim (Bool-cases (has_decisions e)) [
        | inl some_left ↦ rw some_left (
            same-IsValid _ _ (replace-IsValid e (remove_decision_type-SameKey _ now dt) mask) refl
              refl refl refl)
        | inr none_left ↦ rw none_left (same-IsValid _ _ (bury-IsValid e) refl refl refl refl)
      ]

-- The table of names is apart from what the invariant reads.
pub with_scenario_keeps :
    (s : ShmData) (name : Option (List ℕ))
    → ((with_scenario s name).0.entries ≡ s.entries)
      × ((with_scenario s name).0.capacity ≡ s.capacity)
      × ((with_scenario s name).0.clock_hand ≡ s.clock_hand)
      × ((with_scenario s name).0.count ≡ s.count)
      × ((with_scenario s name).0.cidr_prefixes ≡ s.cidr_prefixes)
unfolding get_or_create_scenario_id
with_scenario_keeps s none = (refl, refl, refl, refl, refl)
with_scenario_keeps s (some name) = ground arith

pub with_scenario-IsValid :
    (s : ShmData) (name : Option (List ℕ)) → IsValid s → IsValid (with_scenario s name).0
with_scenario-IsValid s name v =
    let (e, c, h, n, _) = with_scenario_keeps s name in
    same-IsValid s (with_scenario s name).0 v e c h n
