-- ===== src/Shm/Update/Insert.antt =====
-- `insert_entry` on a valid zone: it never fails, and it is one write, to a vacant slot while there
-- is one and else to that of a live entry.
use native.Mathlib.Nat.{mod-lt}
use ngx_http_crowdsec_module.Base.{
  ℕ, zero, suc, ◌+◌, ◌<◌, ◌≡◌, refl, sym, ap, ◌∙◌, inl, inr, true, false, none, some, List, [], ◌∷◌,
  if◌then◌else◌, set, arith, count-le-length, count-lt-length, count-pos, false≢true,
}
use ngx_http_crowdsec_module.Shm.Entry
use ngx_http_crowdsec_module.Shm.Entry.{ShmHashEntry, is_empty, is_vacant, mark_tombstone}
use ngx_http_crowdsec_module.Shm.Find.Vacancy.{find_vacant_slot-Room, evict_clock_cases}
use ngx_http_crowdsec_module.Shm.Find.{find_vacant_slot, evict_clock, evict_at}
use ngx_http_crowdsec_module.Shm.Key.{Key, matches, hash_of, is_live, matches-is_live, matches-Same}
use ngx_http_crowdsec_module.Shm.State.{ShmData, entry_at}
use ngx_http_crowdsec_module.Shm.Table.{Fits, Linked}
use ngx_http_crowdsec_module.Shm.Update.{insert_entry}
use ngx_http_crowdsec_module.Shm.Valid.{IsValid, write-IsValid}

set-set {ℓ} : {A : Type ℓ} (xs : List A) (i : ℕ) (v w : A) → set (set xs i v) i w ≡ set xs i w
set-set [] i v w = refl
set-set (x ∷ xs) zero v w = refl
set-set (x ∷ xs) (suc i) v w = ap (◌∷◌ x) (set-set xs i v w)

-- The zone `s'` is `s` with `e` written to one slot.
pub record Inserted (s s' : ShmData) (e : ShmHashEntry) : Type 0 where
  pub place : ℕ
  pub in_range : place < s.capacity
  pub written : s'.entries ≡ set s.entries place e
  pub path : Linked s.capacity s.entries e.hash place
  -- A live entry makes room only if every slot is live.
  pub full :
      is_live (entry_at s.entries place) ≡ true
      → (j : ℕ) → j < s.capacity
      → is_live (entry_at s.entries j) ≡ true
  pub same_capacity : s'.capacity ≡ s.capacity
  pub same_prefixes : s'.cidr_prefixes ≡ s.cidr_prefixes
  pub hand : s'.clock_hand < s.capacity
  pub counts : s'.count + (if is_live (entry_at s.entries place) then 1 else 0) ≡ s.count + 1

module _ (s : ShmData) (now : ℕ) (e : ShmHashEntry) (v : IsValid s) where
  vacant-Inserted :
      (i : ℕ)
      → find_vacant_slot s.entries s.capacity e.hash ≡ some i
      → i < s.capacity
      → is_live (entry_at s.entries i) ≡ false
      → Linked s.capacity s.entries e.hash i
      → Inserted s (insert_entry s now e) e
  unfolding insert_entry
  vacant-Inserted i r lt dead path =
      rw (r, insert_entry)
        (record {
          place = i;
          in_range = lt;
          written = refl;
          path = path;
          full = λ live. cc (dead, live);
          same_capacity = refl;
          same_prefixes = refl;
          hand = v.hand;
          counts =
              let room = count-lt-length is_live s.entries i Entry.empty (rw v.sized lt) dead in
              rw dead (omega (arith, v.counted, v.sized, v.bounded, room));
        })

  evicted-Inserted :
      (i : ℕ)
      → find_vacant_slot s.entries s.capacity e.hash ≡ none
      → evict_clock s now ≡ some (evict_at s i, i)
      → i < s.capacity
      → ((j : ℕ)
          → j < s.capacity
          → (is_live (entry_at s.entries j) ≡ true) × (is_empty (entry_at s.entries j) ≡ false))
      → Inserted s (insert_entry s now e) e
  unfolding insert_entry evict_at
  evicted-Inserted i r q lt all =
      rw (r, q, insert_entry)
        (record {
          place = i;
          in_range = lt;
          written = set-set s.entries i _ e;
          path = λ d k dlt at below. (all _ (mod-lt _ v.positive)).1;
          full = λ _ j jr. (all j jr).0;
          same_capacity = refl;
          same_prefixes = refl;
          hand = omega (arith, lt);
          counts =
              let some_live =
                count-pos is_live s.entries i Entry.empty (rw v.sized lt) (all i lt).0 in
              let most = count-le-length is_live s.entries in
              rw (all i lt).0 (omega (arith, v.counted, v.sized, v.bounded, some_live, most));
        })

  -- On a valid zone an insertion writes the entry to one slot that its hash leads to, taking a
  -- live entry's slot only if every slot is live, and keeps the count exact.
  pub insert_entry-Inserted : Inserted s (insert_entry s now e) e
  insert_entry-Inserted = elim (find_vacant_slot-Room s.capacity s.entries e.hash v.positive) [
    | inl (i, r, lt, dead, path) ↦ vacant-Inserted i r lt dead path
    | inr (r, all) ↦ elim (evict_clock_cases s now v.hand) [
      | inl (i, q, lt, _, _) ↦ evicted-Inserted i r q lt all
      | inr (_, nothing) ↦ absurd (false≢true (sym (nothing 0 v.positive) ∙ (all 0 v.positive).0))
    ]
  ]

-- The entry is new to the zone: it is live, it is filed under the hash of its key, and no live entry
-- has that key.
pub record IsNew (s : ShmData) (k : Key) (e : ShmHashEntry) : Type 0 where
  pub has_key : matches k e ≡ true
  pub filed : e.hash ≡ hash_of k
  pub masked : e.decision_types < 4
  pub absent : (j : ℕ) → j < s.capacity → matches k (entry_at s.entries j) ≡ true → ⊥

new-Fits :
    (s : ShmData) (k : Key) (e : ShmHashEntry) (i : ℕ)
    → IsNew s k e
    → Linked s.capacity s.entries e.hash i
    → Fits s.capacity s.entries i e
unfolding is_vacant
new-Fits s k e i n path = record {
  filled = ground (arith, matches-is_live k e n.has_key);
  path = λ _. path;
  filed = λ l m. n.filed ∙ (matches-Same k l e n.has_key m).same_hash;
  alone = λ j l jr m other.
      absurd (n.absent j jr ((matches-Same k l e n.has_key m).same_matches _ ∙ other));
}

-- Inserting a new entry keeps the invariant.
pub insert_entry-IsValid :
    (s : ShmData) (now : ℕ) (k : Key) (e : ShmHashEntry)
    → IsValid s
    → IsNew s k e
    → IsValid (insert_entry s now e)
insert_entry-IsValid s now k e v n =
    let w = insert_entry-Inserted s now e v in
    write-IsValid s (insert_entry s now e) w.place e v w.in_range (new-Fits s k e w.place n w.path)
      n.masked w.written w.same_capacity w.hand (rw (matches-is_live k e n.has_key) w.counts)
