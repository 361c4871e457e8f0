-- ===== src/Shm/Find/Search.antt =====
-- `find_slot_ip` and `find_slot_cidr` on a table that keeps the invariant: they find the entry of the
-- key if there is one, and they report that there is none only if there is none.
use native.Mathlib.Nat.{mod-lt}
use ngx_http_crowdsec_module.Base.{
  ℕ, ◌%◌, ◌≤◌, ◌<◌, ◌≡◌, sym, ◌∙◌, ◌⊎◌, inl, inr, Bool, true, false, false≢true, ltb, Option, none,
  some, List, ◌==◌, arith, Bool-cases,
}
use ngx_http_crowdsec_module.Net.{IpAddr}
use ngx_http_crowdsec_module.Shm.Entry.{ShmHashEntry, is_empty, is_vacant}
use ngx_http_crowdsec_module.Shm.Find.{
  find_body, not_found_at, find_slot, find_slot_ip, find_slot_cidr,
}
use ngx_http_crowdsec_module.Shm.Key.{
  Key, ip, cidr, matches, hash_of, hits, is_live, matches-is_live,
}
use ngx_http_crowdsec_module.Shm.Probe.Outcome.{Passed, probe-Outcome}
use ngx_http_crowdsec_module.Shm.Probe.{slot, slot_of}
use ngx_http_crowdsec_module.Shm.State.{entry_at}
use ngx_http_crowdsec_module.Shm.Table.{Table, Linked}

-- The two searches as one over keys.
abbrev pub find_key : List ShmHashEntry → ℕ → Key → ℕ × Bool
find_key entries capacity k = find_slot entries capacity (hash_of k) (hits k)

-- What a search returns: the slot that holds the key, or else no slot holds it.
abbrev pub Found : List ShmHashEntry → ℕ → Key → ℕ × Bool → Type 0
Found entries capacity k r =
    ((i : ℕ) × (r ≡ (i, true)) × (i < capacity) × (matches k (entry_at entries i) ≡ true))
    ⊎ ((i : ℕ) × (r ≡ (i, false))
        × ((j : ℕ) → j < capacity → matches k (entry_at entries j) ≡ true → ⊥))

body_cases :
    (entries : List ShmHashEntry) (k : Key) (i : ℕ) (r : ℕ × Bool)
    → find_body entries (hits k) i ≡ some r
    → ((r ≡ (i, true)) × (matches k (entry_at entries i) ≡ true))
      ⊎ ((r ≡ (i, false)) × (is_empty (entry_at entries i) ≡ true))
unfolding find_body
body_cases entries k i r h = ground arith

body_passed :
    (entries : List ShmHashEntry) (k : Key) (i : ℕ)
    → find_body entries (hits k) i ≡ none
    → (entry_at entries i).hash ≡ hash_of k
    → matches k (entry_at entries i) ≡ true
    → is_live (entry_at entries i) ≡ true
    → ⊥
unfolding find_body is_vacant
body_passed entries k i h e m l = ground arith

empty-is_live : (e : ShmHashEntry) → is_empty e ≡ true → is_live e ≡ true → ⊥
unfolding is_vacant
empty-is_live e h l = ground arith

module _ (entries : List ShmHashEntry) (capacity : ℕ) (k : Key) (positive : 0 < capacity)
    (t : Table capacity entries) where
  abbrev start : ℕ
  start = hash_of k % capacity

  abbrev body : ℕ → Option (ℕ × Bool)
  body = find_body entries (hits k)

  start-lt : start < capacity
  start-lt = mod-lt _ positive

  -- A slot that the search passed does not hold the key.
  Passed-slot :
      (n d j : ℕ)
      → Passed capacity start body not_found_at n
      → d < n
      → slot capacity start d ≡ j
      → j < capacity
      → matches k (entry_at entries j) ≡ true
      → ⊥
  Passed-slot n d j past lt at r m =
      body_passed entries k j (rw at at (past d lt)) (t.keyed j k r m) m (matches-is_live k _ m)

  -- Nor does one at or behind an empty slot.
  behind_empty :
      (d e j : ℕ)
      → e < capacity
      → d ≤ e
      → slot capacity start e ≡ j
      → j < capacity
      → is_empty (entry_at entries (slot capacity start d)) ≡ true
      → matches k (entry_at entries j) ≡ true
      → ⊥
  behind_empty d e j lt le at r h m = elim (Bool-cases (d == e)) [
    | inl q ↦
        let same : d ≡ e = ground arith in
        empty-is_live _ (rw (same, at) at h) (matches-is_live k _ m)
    | inr q ↦
        let l : Linked capacity entries (hash_of k) j =
          rw (t.keyed j k r m) at (t.linked j r (matches-is_live k _ m)) in
        false≢true (sym (l e d lt at (ground arith)) ∙ h)
  ]

  none_behind :
      (d : ℕ)
      → Passed capacity start body not_found_at d
      → is_empty (entry_at entries (slot capacity start d)) ≡ true
      → (j : ℕ) → j < capacity
      → matches k (entry_at entries j) ≡ true
      → ⊥
  none_behind d past h j r m =
      let (e, lt, at) = slot_of capacity start j start-lt r in
      elim (Bool-cases (ltb e d)) [
        | inl q ↦ Passed-slot d e j past (ground arith) at r m
        | inr q ↦ behind_empty d e j lt (ground arith) at r h m
      ]

  -- The search for a key ends at the slot that holds it, and reports a failure only if no slot does.
  pub find_key-Found : Found entries capacity k (find_key entries capacity k)
  find_key-Found = elim (probe-Outcome capacity start body not_found_at (0, false) start-lt) [
    | inl (d, lt, b, past) ↦ elim (body_cases entries k (slot capacity start d) _ b) [
      | inl (r, m) ↦ inl (slot capacity start d, r, mod-lt _ positive, m)
      | inr (r, h) ↦ inr (slot capacity start d, r, none_behind d past h)
    ]
    | inr (r, past) ↦ inr (
      start,
      r,
      λ j jr m.
          let (d, lt, at) = slot_of capacity start j start-lt jr in
          Passed-slot capacity d j past lt at jr m,
    )
  ]

module _ (entries : List ShmHashEntry) (capacity : ℕ) where
  -- In a table that keeps its invariant find_slot_ip returns the slot that holds the address, or
  -- says that none does, and then no slot does.
  pub find_slot_ip-Found :
      (a : IpAddr)
      → 0 < capacity
      → Table capacity entries
      → Found entries capacity (ip a) (find_slot_ip entries capacity (hash_of (ip a)) a)
  unfolding find_slot_ip
  find_slot_ip-Found a positive t = find_key-Found entries capacity (ip a) positive t

  -- In a table that keeps its invariant find_slot_cidr returns the slot that holds the range, or
  -- says that none does, and then no slot does.
  pub find_slot_cidr-Found :
      (f p : ℕ) (n : List ℕ)
      → 0 < capacity
      → Table capacity entries
      → Found entries capacity
          (cidr f p n)
          (find_slot_cidr entries capacity (hash_of (cidr f p n)) f p n)
  unfolding find_slot_cidr
  find_slot_cidr-Found f p n positive t = find_key-Found entries capacity (cidr f p n) positive t
