-- ===== src/Shm/Table.antt =====
-- The invariant of the hash table, and what one write must respect to keep it.
use native.Mathlib.Decide.{ℕ_discrete}
use ngx_http_crowdsec_module.Base.{
  ℕ, ◌%◌, ◌<◌, ◌≡◌, ◌≢◌, refl, sym, ◌∙◌, ◌⊎◌, inl, inr, true, false, List, length, set, replicate,
  get_or-set_self, get_or-set_ne, get_or-replicate,
}
use ngx_http_crowdsec_module.Shm.Entry
use ngx_http_crowdsec_module.Shm.Entry.{ShmHashEntry, is_empty, is_vacant, is_tombstone}
use ngx_http_crowdsec_module.Shm.Key.{Key, matches, hash_of, is_live, matches-is_live}
use ngx_http_crowdsec_module.Shm.Probe.{slot}
use ngx_http_crowdsec_module.Shm.State.{entry_at}

-- No slot between the one that `hash` leads to and slot `i` is empty.
abbrev pub Linked : ℕ → List ShmHashEntry → ℕ → ℕ → Type 0
Linked capacity entries hash i =
    (d k : ℕ)
    → d < capacity
    → slot capacity (hash % capacity) d ≡ i
    → k < d
    → is_empty (entry_at entries (slot capacity (hash % capacity) k)) ≡ false

pub record Table (capacity : ℕ) (entries : List ShmHashEntry) : Type 0 where
  -- A search for a live entry's hash does not stop before its slot.
  pub linked :
      (i : ℕ)
      → i < capacity
      → is_live (entry_at entries i) ≡ true
      → Linked capacity entries (entry_at entries i).hash i
  -- An entry is filed under the hash of its key.
  pub keyed :
      (i : ℕ) (k : Key)
      → i < capacity
      → matches k (entry_at entries i) ≡ true
      → (entry_at entries i).hash ≡ hash_of k
  -- No key is stored twice.
  pub unique :
      (i j : ℕ) (k : Key)
      → i < capacity
      → j < capacity
      → matches k (entry_at entries i) ≡ true
      → matches k (entry_at entries j) ≡ true
      → i ≡ j

-- What an entry must satisfy to be written to slot `i`.
pub record Fits (capacity : ℕ) (entries : List ShmHashEntry) (i : ℕ) (e : ShmHashEntry)
    : Type 0 where
  pub filled : is_empty e ≡ false
  pub path : is_live e ≡ true → Linked capacity entries e.hash i
  pub filed : (k : Key) → matches k e ≡ true → e.hash ≡ hash_of k
  pub alone :
      (j : ℕ) (k : Key)
      → j < capacity
      → matches k e ≡ true
      → matches k (entry_at entries j) ≡ true
      → j ≡ i

module _ (capacity : ℕ) (entries : List ShmHashEntry) (i : ℕ) (e : ShmHashEntry)
    (sized : length entries ≡ capacity) (in_range : i < capacity) where
  pub entry_at-set_self : entry_at (set entries i e) i ≡ e
  entry_at-set_self = get_or-set_self entries i e Entry.empty (rw sized in_range)

  pub entry_at-set_ne : (j : ℕ) → i ≢ j → entry_at (set entries i e) j ≡ entry_at entries j
  entry_at-set_ne j ne = get_or-set_ne entries i j e Entry.empty ne

  -- A slot after the write: the one written, or as before.
  pub entry_at-set_cases :
      (j : ℕ)
      → ((i ≡ j) × (entry_at (set entries i e) j ≡ e))
        ⊎ ((i ≢ j) × (entry_at (set entries i e) j ≡ entry_at entries j))
  entry_at-set_cases j = elim (ℕ_discrete i j) [
    | yes p ↦ inl (p, rw (← p) entry_at-set_self)
    | no p ↦ inr (p, entry_at-set_ne j p)
  ]

  is_empty-set :
      is_empty e ≡ false
      → (j : ℕ) → is_empty (entry_at entries j) ≡ false
      → is_empty (entry_at (set entries i e) j) ≡ false
  is_empty-set filled j h = elim (entry_at-set_cases j) [
    | inl (_, now) ↦ rw now filled
    | inr (_, now) ↦ rw now h
  ]

  Linked-set :
      is_empty e ≡ false
      → (hash j : ℕ) → Linked capacity entries hash j
      → Linked capacity (set entries i e) hash j
  Linked-set filled hash j l d k lt at below = is_empty-set filled _ (l d k lt at below)

  set-Linked :
      Table capacity entries
      → Fits capacity entries i e
      → (j : ℕ) → j < capacity
      → is_live (entry_at (set entries i e) j) ≡ true
      → Linked capacity (set entries i e) (entry_at (set entries i e) j).hash j
  set-Linked t f j jr = elim (entry_at-set_cases j) [
    | inl (p, now) ↦ rw now (λ live. rw (← p) (Linked-set f.filled _ i (f.path live)))
    | inr (p, now) ↦ rw now (λ live. Linked-set f.filled _ j (t.linked j jr live))
  ]

  set-keyed :
      Table capacity entries
      → Fits capacity entries i e
      → (j : ℕ) (k : Key) → j < capacity
      → matches k (entry_at (set entries i e) j) ≡ true
      → (entry_at (set entries i e) j).hash ≡ hash_of k
  set-keyed t f j k jr = elim (entry_at-set_cases j) [
    | inl (p, now) ↦ rw now (f.filed k)
    | inr (p, now) ↦ rw now (t.keyed j k jr)
  ]

  set_unique :
      Table capacity entries
      → Fits capacity entries i e
      → (a b : ℕ) (k : Key) → a < capacity
      → b < capacity
      → matches k (entry_at (set entries i e) a) ≡ true
      → matches k (entry_at (set entries i e) b) ≡ true
      → a ≡ b
  set_unique t f a b k ar br = elim (entry_at-set_cases a) [
    | inl (p, na) ↦ elim (entry_at-set_cases b) [
      | inl (q, nb) ↦ λ _ _. sym p ∙ q
      | inr (q, nb) ↦ rw (na, nb) (λ ma mb. sym (f.alone b k br ma mb ∙ p))
    ]
    | inr (p, na) ↦ elim (entry_at-set_cases b) [
      | inl (q, nb) ↦ rw (na, nb) (λ ma mb. f.alone a k ar mb ma ∙ q)
      | inr (q, nb) ↦ rw (na, nb) (t.unique a b k ar br)
    ]
  ]

  -- A write that fits keeps the invariant.
  pub set-Table :
      Table capacity entries → Fits capacity entries i e → Table capacity (set entries i e)
  set-Table t f = record { linked = set-Linked t f; keyed = set-keyed t f; unique = set_unique t f }

-- An entry that is not live has no key.
pub not_live-matches : (k : Key) (e : ShmHashEntry) → is_live e ≡ false → matches k e ≡ true → ⊥
not_live-matches k e dead m = cc (matches-is_live k e m)

pub empty_dead : is_live Entry.empty ≡ false
unfolding is_vacant
empty_dead = refl

-- A tombstone fits everywhere.
pub tombstone-Fits :
    {capacity : ℕ} {entries : List ShmHashEntry} (i : ℕ) (e : ShmHashEntry)
    → is_live e ≡ false
    → is_empty e ≡ false
    → Fits capacity entries i e
tombstone-Fits i e dead filled = record {
  filled = filled;
  path = λ live. absurd (cc);
  filed = λ k m. absurd (not_live-matches k e dead m);
  alone = λ j k jr m _. absurd (not_live-matches k e dead m);
}

-- An entry with the hash and the keys of the live entry in its slot fits there.
pub same_key-Fits :
    {capacity : ℕ} {entries : List ShmHashEntry} (i : ℕ) (e : ShmHashEntry)
    → Table capacity entries
    → i < capacity
    → is_live (entry_at entries i) ≡ true
    → is_empty e ≡ false
    → e.hash ≡ (entry_at entries i).hash
    → ((k : Key) → matches k e ≡ matches k (entry_at entries i))
    → Fits capacity entries i e
same_key-Fits i e t in_range live filled hash keys = record {
  filled = filled;
  path = λ _. rw hash (t.linked i in_range live);
  filed = λ k m. rw hash (t.keyed i k in_range (rw (← keys k) m));
  alone = λ j k jr m n. t.unique j i k jr in_range n (rw (← keys k) m);
}

-- A table of empty slots.
pub replicate-Table : (capacity : ℕ) → Table capacity (replicate capacity Entry.empty)
replicate-Table capacity = record {
  linked = λ i r. rw (get_or-replicate capacity i Entry.empty) (λ live. cc (empty_dead, live));
  keyed = λ i k r.
      rw (get_or-replicate capacity i Entry.empty)
        (λ m. absurd (not_live-matches k Entry.empty empty_dead m));
  unique = λ i j k r q.
      rw (get_or-replicate capacity i Entry.empty)
        (λ m. absurd (not_live-matches k Entry.empty empty_dead m));
}
