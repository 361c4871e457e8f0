-- ===== src/Shm/Find/Vacancy.antt =====
-- `find_vacant_slot`, and the slots that the clock hand stops at.
use native.Mathlib.Nat.{mod-lt}
use ngx_http_crowdsec_module.Base.{
  ℕ, ◌%◌, ◌<◌, ◌≡◌, refl, ◌⊎◌, inl, inr, Bool, true, false, Option, none, some, List, arith,
  Bool-cases, false≢true,
}
use ngx_http_crowdsec_module.Shm.Entry.{ShmHashEntry, is_empty, is_vacant, is_expired_at}
use ngx_http_crowdsec_module.Shm.Find.{
  vacant_body, find_vacant_slot, evict_body, victim, evict_clock_matching, evict_clock, evict_at,
}
use ngx_http_crowdsec_module.Shm.Key.{is_live}
use ngx_http_crowdsec_module.Shm.Probe.Outcome.{probe-Outcome}
use ngx_http_crowdsec_module.Shm.Probe.{slot, slot_of}
use ngx_http_crowdsec_module.Shm.State.{ShmData, entry_at}
use ngx_http_crowdsec_module.Shm.Table.{Linked}

vacant_body_cases :
    (entries : List ShmHashEntry) (i : ℕ) (r : Option ℕ)
    → vacant_body entries i ≡ some r
    → (r ≡ some i) × (is_live (entry_at entries i) ≡ false)
unfolding vacant_body
vacant_body_cases entries i r h = ground arith

vacant_body_passed :
    (entries : List ShmHashEntry) (i : ℕ)
    → vacant_body entries i ≡ none
    → (is_live (entry_at entries i) ≡ true) × (is_empty (entry_at entries i) ≡ false)
unfolding vacant_body is_vacant
vacant_body_passed entries i h = ground arith

-- What the search for room returns: a vacant slot that the hash leads to, or else every slot is live.
abbrev pub Room : ℕ → List ShmHashEntry → ℕ → Option ℕ → Type 0
Room capacity entries hash r =
    ((i : ℕ) × (r ≡ some i)
      × (i < capacity)
      × (is_live (entry_at entries i) ≡ false)
      × Linked capacity entries hash i)
    ⊎ ((r ≡ none)
        × ((j : ℕ)
            → j < capacity
            → (is_live (entry_at entries j) ≡ true) × (is_empty (entry_at entries j) ≡ false)))

module _ (capacity : ℕ) (entries : List ShmHashEntry) (hash : ℕ) (positive : 0 < capacity) where
  -- Two places of one round with the same slot are the same place.
  slot_injective :
      (start d e : ℕ)
      → start < capacity
      → d < capacity
      → e < capacity
      → slot capacity start d ≡ slot capacity start e
      → d ≡ e
  slot_injective start d e h hd he q = grind arith

  -- In a table with at least one slot find_vacant_slot returns a vacant slot that the hash leads
  -- to with no empty slot before it, or none if every slot is live.
  pub find_vacant_slot-Room : Room capacity entries hash (find_vacant_slot entries capacity hash)
  unfolding find_vacant_slot
  find_vacant_slot-Room =
      elim (probe-Outcome capacity (hash % capacity) (vacant_body entries) (λ _. none) none
        (mod-lt hash positive)) [
          | inl (d, lt, b, past) ↦
              let (r, dead) = vacant_body_cases entries (slot capacity (hash % capacity) d) _ b in
              inl (
                slot capacity (hash % capacity) d,
                r,
                mod-lt _ positive,
                dead,
                λ e k elt at below.
                    let same : e ≡ d = slot_injective _ e d (mod-lt hash positive) elt lt at in
                    (vacant_body_passed entries _ (past k (rw same at below))).1,
              )
          | inr (r, past) ↦ inr (
            r,
            λ j jr.
                let (d, lt, at) = slot_of capacity (hash % capacity) j (mod-lt hash positive) jr in
                vacant_body_passed entries j (rw at at (past d lt)),
          )
        ]

-- What eviction picks: a live slot, expired if the round asks for that; or else there is none such.
abbrev pub Picked : ShmData → ℕ → Bool → Option ℕ → Type 0
Picked s now expired_only r =
    ((i : ℕ) × (r ≡ some i)
      × (i < s.capacity)
      × (is_live (entry_at s.entries i) ≡ true)
      × (expired_only ≡ true → is_expired_at (entry_at s.entries i) now ≡ true))
    ⊎ ((r ≡ none)
        × ((j : ℕ)
            → j < s.capacity
            → is_live (entry_at s.entries j) ≡ true
            → (expired_only ≡ true) × (is_expired_at (entry_at s.entries j) now ≡ false)))

evict_body_cases :
    (entries : List ShmHashEntry) (now : ℕ) (only : Bool) (i : ℕ) (r : Option ℕ)
    → evict_body entries now only i ≡ some r
    → (r ≡ some i)
      × (is_live (entry_at entries i) ≡ true)
      × (only ≡ true → is_expired_at (entry_at entries i) now ≡ true)
unfolding evict_body
evict_body_cases entries now only i r h = ground arith

evict_body_passed :
    (entries : List ShmHashEntry) (now : ℕ) (only : Bool) (i : ℕ)
    → evict_body entries now only i ≡ none
    → is_live (entry_at entries i) ≡ true
    → (only ≡ true) × (is_expired_at (entry_at entries i) now ≡ false)
unfolding evict_body
evict_body_passed entries now only i h l = ground arith

-- The hand goes round the whole table before it gives up.
pub victim-Picked :
    (s : ShmData) (now : ℕ) (only : Bool)
    → s.clock_hand < s.capacity
    → Picked s now only (victim s now only)
unfolding victim
victim-Picked s now only hand =
    elim (probe-Outcome s.capacity s.clock_hand (evict_body s.entries now only) (λ _. none) none
      hand) [
        | inl (d, lt, b, past) ↦
            let i = slot s.capacity s.clock_hand d in
            let (r, live, expired) = evict_body_cases s.entries now only i _ b in
            inl (i, r, mod-lt _ (omega arith), live, expired)
        | inr (r, past) ↦ inr (
          r,
          λ j jr live.
              let (d, lt, at) = slot_of s.capacity s.clock_hand j hand jr in
              evict_body_passed s.entries now only j (rw at at (past d lt)) live,
        )
      ]

-- With the clock hand inside the table, the clock takes a live entry, an expired one while there
-- is one, and takes none only if no entry is live.
pub evict_clock_cases :
    (s : ShmData) (now : ℕ)
    → s.clock_hand < s.capacity
    → ((i : ℕ) × (evict_clock s now ≡ some (evict_at s i, i))
        × (i < s.capacity)
        × (is_live (entry_at s.entries i) ≡ true)
        × ((is_expired_at (entry_at s.entries i) now ≡ true)
            ⊎ ((j : ℕ)
                → j < s.capacity
                → is_live (entry_at s.entries j) ≡ true
                → is_expired_at (entry_at s.entries j) now ≡ false)))
      ⊎ ((evict_clock s now ≡ none)
          × ((j : ℕ) → j < s.capacity → is_live (entry_at s.entries j) ≡ false))
unfolding evict_clock evict_clock_matching
evict_clock_cases s now hand = elim (victim-Picked s now true hand) [
  | inl (i, r, lt, live, expired) ↦
      inl (i, rw (r, evict_clock, evict_clock_matching), lt, live, inl (expired refl))
  | inr (r, fresh) ↦ elim (victim-Picked s now false hand) [
    | inl (i, q, lt, live, _) ↦ inl (
      i,
      rw (r, q, evict_clock, evict_clock_matching),
      lt,
      live,
      inr (λ j jr l. (fresh j jr l).1),
    )
    | inr (q, nothing) ↦ inr (
      rw (r, q, evict_clock, evict_clock_matching),
      λ j jr. elim (Bool-cases (is_live (entry_at s.entries j))) [
        | inl l ↦ absurd (false≢true (nothing j jr l).0)
        | inr d ↦ d
      ],
    )
  ]
]
