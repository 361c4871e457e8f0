-- ===== src/Shm/Valid.antt =====
-- The invariant of the zone, and the single writes that keep it.
use ngx_http_crowdsec_module.Base.{
  ℕ, ◌+◌, ◌≤◌, ◌<◌, ◌≡◌, refl, sym, ◌∙◌, inl, inr, false, List, if◌then◌else◌, length, set, count,
  arith, count-set, length-set, count-le-length,
}
use ngx_http_crowdsec_module.Base.Words.{u32_mod}
use ngx_http_crowdsec_module.Shm.Entry
use ngx_http_crowdsec_module.Shm.Entry.{
  ShmHashEntry, is_empty, is_tombstone, is_vacant, mark_tombstone,
}
use ngx_http_crowdsec_module.Shm.Key.{is_live}
use ngx_http_crowdsec_module.Shm.State.{ShmData, entry_at}
use ngx_http_crowdsec_module.Shm.Table.{Table, Fits, set-Table, entry_at-set_cases, tombstone-Fits}

pub record IsValid (s : ShmData) : Type 0 where
  pub positive : 0 < s.capacity
  pub bounded : s.capacity < u32_mod
  pub sized : length s.entries ≡ s.capacity
  pub hand : s.clock_hand < s.capacity
  -- `count` is the number of live entries.
  pub counted : s.count ≡ count is_live s.entries
  pub table : Table s.capacity s.entries
  -- An entry has no bits but those of the two remediations.
  pub masked : (i : ℕ) → (entry_at s.entries i).decision_types < 4

pub mark_tombstone-dead :
    (e : ShmHashEntry)
    → (is_live (mark_tombstone e) ≡ false)
      × (is_empty (mark_tombstone e) ≡ false)
      × ((mark_tombstone e).decision_types < 4)
unfolding mark_tombstone is_vacant
mark_tombstone-dead e = (refl, refl, omega arith)

pub mark_tombstone-Fits :
    {capacity : ℕ} {entries : List ShmHashEntry} (i : ℕ) (e : ShmHashEntry)
    → Fits capacity entries i (mark_tombstone e)
mark_tombstone-Fits i e =
    let (dead, filled, _) = mark_tombstone-dead e in tombstone-Fits i (mark_tombstone e) dead filled

-- One write that fits keeps the table, its size, and a count that follows it.
pub write-IsValid :
    (s s' : ShmData) (i : ℕ) (e : ShmHashEntry)
    → IsValid s
    → i < s.capacity
    → Fits s.capacity s.entries i e
    → e.decision_types < 4
    → s'.entries ≡ set s.entries i e
    → s'.capacity ≡ s.capacity
    → s'.clock_hand < s.capacity
    → s'.count + (if is_live (entry_at s.entries i) then 1 else 0)
      ≡ s.count + (if is_live e then 1 else 0)
    → IsValid s'
write-IsValid s s' i e v lt f mask written same hand counts = record {
  positive = omega (arith, v.positive);
  bounded = omega (arith, v.bounded);
  sized = rw written (length-set s.entries i e ∙ v.sized ∙ sym same);
  hand = omega arith;
  counted =
      rw written
        (omega (arith, v.counted, count-set is_live s.entries i e Entry.empty (rw v.sized lt)));
  table = rw (same, written) (set-Table s.capacity s.entries i e v.sized lt v.table f);
  masked = λ j. rw written (set_masked j);
}
  where
    set_masked : (j : ℕ) → (entry_at (set s.entries i e) j).decision_types < 4
    set_masked j = elim (entry_at-set_cases s.capacity s.entries i e v.sized lt j) [
      | inl (_, now) ↦ rw now mask
      | inr (_, now) ↦ rw now (v.masked j)
    ]

-- Nothing that the invariant reads has changed.
pub same-IsValid :
    (s s' : ShmData)
    → IsValid s
    → s'.entries ≡ s.entries
    → s'.capacity ≡ s.capacity
    → s'.clock_hand ≡ s.clock_hand
    → s'.count ≡ s.count
    → IsValid s'
same-IsValid s s' v e c h n = record {
  positive = omega (arith, v.positive);
  bounded = omega (arith, v.bounded);
  sized = rw (e, c) v.sized;
  hand = rw (h, c) v.hand;
  counted = rw (e, n) v.counted;
  table = rw (e, c) v.table;
  masked = λ j. rw e (v.masked j);
}

-- In a valid zone the count never exceeds the capacity.
pub count-le-capacity : (s : ShmData) → IsValid s → s.count ≤ s.capacity
count-le-capacity s v = omega (arith, v.counted, v.sized, count-le-length is_live s.entries)
