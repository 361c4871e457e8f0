-- ===== src/Shm/View/Writes.antt =====
-- What one write does to the map: the key written is stored, every other key is as before.
pub mod Updates
pub mod Decisions
pub mod Removals
pub mod Distinct
use ngx_http_crowdsec_module.Base.{
  ℕ, ◌+◌, ◌≤◌, ◌<◌, ◌≡◌, ◌≢◌, refl, sym, ap, ◌∙◌, ◌⊎◌, inl, inr, Bool, true, false, not, List,
  Option, none, some, if◌then◌else◌, set, length, count, count_all, arith, Bool-cases, false≢true,
}
use ngx_http_crowdsec_module.Shm.Entry
use ngx_http_crowdsec_module.Shm.Entry.{ShmHashEntry, mark_tombstone}
use ngx_http_crowdsec_module.Shm.Key.{Key, matches, is_live, matches-is_live}
use ngx_http_crowdsec_module.Shm.State.{ShmData, entry_at}
use ngx_http_crowdsec_module.Shm.Table.{
  entry_at-set_self, entry_at-set_ne, entry_at-set_cases, not_live-matches,
}
use ngx_http_crowdsec_module.Shm.Update.Insert.{
  Inserted, insert_entry-Inserted, IsNew, insert_entry-IsValid,
}
use ngx_http_crowdsec_module.Shm.Update.Keeps.{bury-IsValid, bury_absent}
use ngx_http_crowdsec_module.Shm.Update.{insert_entry, bury}
use ngx_http_crowdsec_module.Shm.Valid.{IsValid, mark_tombstone-dead}
use ngx_http_crowdsec_module.Shm.View.Reads.{stored-eq-some, stored-eq-none, stored_cases}
use ngx_http_crowdsec_module.Shm.View.{stored}

-- No entry has both keys.
abbrev pub Differ : Key → Key → Type 0
Differ k l = (e : ShmHashEntry) → matches k e ≡ true → matches l e ≡ true → ⊥

-- What is stored depends on the entries alone.
pub stored_same :
    (s s' : ShmData) (k : Key)
    → s'.entries ≡ s.entries
    → s'.capacity ≡ s.capacity
    → stored s' k ≡ stored s k
unfolding stored
stored_same s s' k e c = rw (e, c)

module _ (s s' : ShmData) (i : ℕ) (e : ShmHashEntry) (v : IsValid s) (v' : IsValid s')
    (lt : i < s.capacity) (written : s'.entries ≡ set s.entries i e)
    (same : s'.capacity ≡ s.capacity) where
  pub write-stored_self : (k : Key) → matches k e ≡ true → stored s' k ≡ some e
  write-stored_self k m =
      let here : entry_at s'.entries i ≡ e =
        rw written (entry_at-set_self s.capacity s.entries i e v.sized lt) in
      stored-eq-some s' v' k i (rw same lt) (rw here m) ∙ ap some here

  now_at : (j : ℕ) → i ≢ j → entry_at s'.entries j ≡ entry_at s.entries j
  now_at j ne = rw written (entry_at-set_ne s.capacity s.entries i e v.sized lt j ne)

  still_absent :
      (l : Key)
      → (matches l e ≡ true → ⊥)
      → ((j : ℕ) → j < s.capacity → matches l (entry_at s.entries j) ≡ true → ⊥)
      → (j : ℕ) → j < s'.capacity
      → matches l (entry_at s'.entries j) ≡ true
      → ⊥
  still_absent l new nowhere j jr =
      rw written (elim (entry_at-set_cases s.capacity s.entries i e v.sized lt j) [
        | inl (_, now) ↦ rw now new
        | inr (_, now) ↦ rw now (nowhere j (rw (← same) jr))
      ])

  -- A key that neither the old nor the new entry of the slot has.
  pub write-stored_other :
      (l : Key)
      → (matches l e ≡ true → ⊥)
      → (matches l (entry_at s.entries i) ≡ true → ⊥)
      → stored s' l ≡ stored s l
  write-stored_other l new old = elim (stored_cases s v l) [
    | inl (j, jr, m, here) ↦
        let ne : i ≢ j = λ p. old (rw p m) in
        let at = now_at j ne in
        stored-eq-some s' v' l j (rw same jr) (rw at m) ∙ ap some at ∙ sym here
    | inr (nowhere, here) ↦ stored-eq-none s' v' l (still_absent l new nowhere) ∙ sym here
  ]

module _ (s : ShmData) (v : IsValid s) (k : Key) where
  -- Burying the entry of a key forgets the key and no other.
  module _ (i : ℕ) (e : ShmHashEntry) (lt : i < s.capacity)
      (m : matches k (entry_at s.entries i) ≡ true) where
    pub bury-stored_self : stored (bury s i e) k ≡ none
    unfolding bury
    bury-stored_self =
        let live = matches-is_live k _ m in
        stored-eq-none (bury s i e) (bury-IsValid s v i lt live e) k
          (bury_absent s v i lt live e k m)

    pub bury-stored_other : (l : Key) → Differ k l → stored (bury s i e) l ≡ stored s l
    unfolding bury
    bury-stored_other l differ =
        let live = matches-is_live k _ m in
        write-stored_other s (bury s i e) i (mark_tombstone e) v (bury-IsValid s v i lt live e) lt
          refl refl l (not_live-matches l _ (mark_tombstone-dead e).0) (differ _ m)

  -- A new entry is stored for its key. While the zone is not full every other key is as before.
  module _ (now : ℕ) (e : ShmHashEntry) (n : IsNew s k e) where
    pub insert-stored_self : stored (insert_entry s now e) k ≡ some e
    insert-stored_self =
        let w = insert_entry-Inserted s now e v in
        write-stored_self s (insert_entry s now e) w.place e v (insert_entry-IsValid s now k e v n)
          w.in_range w.written w.same_capacity k n.has_key

    vacant_place :
        (w : Inserted s (insert_entry s now e) e)
        → s.count < s.capacity
        → is_live (entry_at s.entries w.place) ≡ false
    vacant_place w room = elim (Bool-cases (is_live (entry_at s.entries w.place))) [
      | inl live ↦
          let all =
            count_all is_live s.entries Entry.empty (λ j jr. w.full live j (rw (← v.sized) jr)) in
          absurd (omega (arith, v.counted, v.sized, all))
      | inr dead ↦ dead
    ]

    pub insert-stored_other :
        s.count < s.capacity → (l : Key) → Differ k l → stored (insert_entry s now e) l ≡ stored s l
    insert-stored_other room l differ =
        let w = insert_entry-Inserted s now e v in
        write-stored_other s (insert_entry s now e) w.place e v (insert_entry-IsValid s now k e v n)
          w.in_range w.written w.same_capacity l (differ e n.has_key)
          (not_live-matches l _ (vacant_place w room))
