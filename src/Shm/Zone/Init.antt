-- ===== src/Shm/Zone/Init.antt =====
-- What `decisions_shm_zone_init` leaves in the zone.
use ngx_http_crowdsec_module.Base.Words.{u32_mod}
use ngx_http_crowdsec_module.Base.{
  ℕ, ◌*◌, ◌^◌, ◌≤◌, ◌<◌, ◌≡◌, refl, sym, ◌∙◌, ◌⊎◌, ◌↔◌, inl, inr, Bool, true, false≢true,
  Bool-cases, none≢some, Option-cases, Option, none, some, if◌then◌else◌, arith, length-replicate,
  count-replicate, get_or-replicate,
}
use ngx_http_crowdsec_module.Shm.Entry
use ngx_http_crowdsec_module.Shm.Key.{Key, is_live}
use ngx_http_crowdsec_module.Shm.Scenario.{max_scenarios}
use ngx_http_crowdsec_module.Shm.State.{ShmData}
use ngx_http_crowdsec_module.Shm.Table.{replicate-Table, empty_dead, not_live-matches}
use ngx_http_crowdsec_module.Shm.Valid.{IsValid, same-IsValid}
use ngx_http_crowdsec_module.Shm.View.Reads.{stored-eq-none}
use ngx_http_crowdsec_module.Shm.View.{stored}
use ngx_http_crowdsec_module.Shm.Zone.{
  fresh, capacity_for, reuse, layout_matches, shm_magic, shm_layout_version, header_size,
  scenario_size, process_alive, decisions_shm_zone_init, min_capacity, entry_size,
}

pub fresh-IsValid : (capacity : ℕ) → 0 < capacity → capacity < u32_mod → IsValid (fresh capacity)
unfolding fresh
fresh-IsValid capacity positive bounded = record {
  positive = positive;
  bounded = bounded;
  sized = length-replicate capacity _;
  hand = positive;
  counted = sym (count-replicate is_live capacity _ empty_dead);
  table = replicate-Table capacity;
  masked = λ i. rw (get_or-replicate capacity i Entry.empty) (omega arith);
}

-- Nothing is stored in a fresh zone.
pub fresh-stored :
    (capacity : ℕ) (k : Key) → 0 < capacity → capacity < u32_mod → stored (fresh capacity) k ≡ none
unfolding fresh
fresh-stored capacity k positive bounded =
    stored-eq-none (fresh capacity) (fresh-IsValid capacity positive bounded) k (λ j jr.
      rw (get_or-replicate capacity j Entry.empty) (not_live-matches k Entry.empty empty_dead))

-- A zone of less than 256 GiB gets at least 1024 slots and, beyond those, no more than fit into 70
-- hundredths of its bytes.
pub capacity_for_bounds :
    (size : ℕ)
    → size < 2 ^ 38
    → (min_capacity ≤ capacity_for size)
      × (capacity_for size < u32_mod)
      × ((capacity_for size ≡ min_capacity) ⊎ (entry_size * capacity_for size * 100 ≤ size * 70))
unfolding capacity_for
capacity_for_bounds size h = ground arith

-- Only the poller's claim and the lock change when the data of an earlier configuration is reused.
reuse_same :
    (signalled : ℕ → Bool) (s : ShmData)
    → ((reuse signalled s).entries ≡ s.entries)
      × ((reuse signalled s).capacity ≡ s.capacity)
      × ((reuse signalled s).clock_hand ≡ s.clock_hand)
      × ((reuse signalled s).count ≡ s.count)
unfolding reuse
reuse_same signalled s = ground arith

reuse_pid :
    (signalled : ℕ → Bool) (s : ShmData)
    → (reuse signalled s).poller_pid
      ≡ (if process_alive signalled s.poller_pid then s.poller_pid else 0)
unfolding reuse process_alive
reuse_pid signalled s = ground arith

pub reuse-IsValid : (signalled : ℕ → Bool) (s : ShmData) → IsValid s → IsValid (reuse signalled s)
reuse-IsValid signalled s v =
    let (e, c, h, n) = reuse_same signalled s in same-IsValid s (reuse signalled s) v e c h n

-- The data was written by this module in this layout.
abbrev pub IsOurs : ShmData → Type 0
IsOurs old = (old.magic ≡ shm_magic) × (old.layout_version ≡ shm_layout_version)

layout_matches_iff : (s : ShmData) → (layout_matches s ≡ true) ↔ IsOurs s
unfolding layout_matches
layout_matches_iff s = ground arith

-- What a reload leaves of the data: all of the table, and the poller's claim while its process lives.
pub record Kept (signalled : ℕ → Bool) (old s : ShmData) : Type 0 where
  pub table :
      (s.entries ≡ old.entries)
      × (s.capacity ≡ old.capacity)
      × (s.clock_hand ≡ old.clock_hand)
      × (s.count ≡ old.count)
  pub names : (s.scenarios ≡ old.scenarios) × (s.scenario_count ≡ old.scenario_count)
  pub marks : s.cidr_prefixes ≡ old.cidr_prefixes
  pub poller : s.poller_pid ≡ (if process_alive signalled old.poller_pid then old.poller_pid else 0)

reuse-Kept : (signalled : ℕ → Bool) (s : ShmData) → Kept signalled s (reuse signalled s)
unfolding reuse
reuse-Kept signalled s = record {
  table = reuse_same signalled s;
  names = ground arith;
  marks = ground arith;
  poller = reuse_pid signalled s;
}

module _ {Pool : Type 0} (alloc : Pool → ℕ → Option Pool) (signalled : ℕ → Bool)
    (pool : Option Pool) (size : ℕ) where
  -- There is a pool, and it has room for the header, the slots and the scenarios.
  abbrev pub HasRoom : Type 0
  HasRoom =
      (start header slots names : Pool) × (pool ≡ some start)
      × (alloc start header_size ≡ some header)
      × (alloc header (entry_size * capacity_for size) ≡ some slots)
      × (alloc slots (scenario_size * max_scenarios) ≡ some names)

  -- Without data from before an empty valid zone is set up, if there is room; data of this layout
  -- is kept; any other is an error.
  abbrev pub Started : Option ShmData → Option ShmData → Type 0
  Started none r =
      (HasRoom × (s : ShmData) × (r ≡ some s) × IsValid s × ((k : Key) → stored s k ≡ none))
      ⊎ ((r ≡ none) × ¬ HasRoom)
  Started (some old) r =
      (IsOurs old × (s : ShmData) × (r ≡ some s) × Kept signalled old s)
      ⊎ ((r ≡ none) × ¬ IsOurs old)

  set_up :
      size < 2 ^ 38
      → IsValid (fresh (capacity_for size))
        × ((k : Key) → stored (fresh (capacity_for size)) k ≡ none)
  set_up h =
      let (enough, small, _) = capacity_for_bounds size h in
      let positive : 0 < capacity_for size = omega arith in
      (
        fresh-IsValid (capacity_for size) positive small,
        λ k. fresh-stored (capacity_for size) k positive small,
      )

  init_room :
      HasRoom
      → decisions_shm_zone_init alloc signalled none pool size ≡ some (fresh (capacity_for size))
  unfolding decisions_shm_zone_init
  init_room (start, header, slots, names, p, h, s, n) = rw (p, h, s, n) refl

  no_room :
      (HasRoom → ⊥)
      → decisions_shm_zone_init alloc signalled none pool size ≡ none
      → Started none (decisions_shm_zone_init alloc signalled none pool size)
  no_room shut e = inr (e, shut)

  Started-none :
      size < 2 ^ 38 → Started none (decisions_shm_zone_init alloc signalled none pool size)
  Started-none small = elim (Option-cases pool) [
    | inl p ↦
        no_room (λ (_, _, _, _, q, _, _, _). none≢some (sym p ∙ q))
          (unfold decisions_shm_zone_init in rw p refl)
    | inr (start, p) ↦ elim (Option-cases (alloc start header_size)) [
      | inl h ↦
          no_room (λ (_, _, _, _, q, u, _, _). cc)
            (unfold decisions_shm_zone_init in rw (p, h) refl)
      | inr (header, h) ↦ elim (Option-cases (alloc header (entry_size * capacity_for size))) [
        | inl s ↦
            no_room (λ (_, _, _, _, q, u, v, _). cc)
              (unfold decisions_shm_zone_init in rw (p, h, s) refl)
        | inr (slots, s) ↦ elim (Option-cases (alloc slots (scenario_size * max_scenarios))) [
          | inl n ↦
              no_room (λ (_, _, _, _, q, u, v, w). cc)
                (unfold decisions_shm_zone_init in rw (p, h, s, n) refl)
          | inr (names, n) ↦
              let room : HasRoom = (start, header, slots, names, p, h, s, n) in
              let (valid, empty) = set_up small in
              inl (room, fresh (capacity_for size), init_room room, valid, empty)
        ]
      ]
    ]
  ]

  -- For a zone of less than 256 GiB: without data from before, the initialization sets up a zone
  -- that keeps the invariant and stores nothing, if there is a pool with room for its three parts,
  -- and fails if there is none; data from before whose magic and layout version are this module's
  -- is kept, with its entries, names and marks, and the poller keeps its claim exactly while its
  -- process is alive; any other data is an error.
  pub decisions_shm_zone_init-Started :
      (before : Option ShmData)
      → size < 2 ^ 38
      → Started before (decisions_shm_zone_init alloc signalled before pool size)
  decisions_shm_zone_init-Started none h = Started-none h
  decisions_shm_zone_init-Started (some old) h = elim (Bool-cases (layout_matches old)) [
    | inl m ↦ inl (
      (layout_matches_iff old).0 m,
      reuse signalled old,
      unfold decisions_shm_zone_init in rw m refl,
      reuse-Kept signalled old,
    )
    | inr n ↦ inr (
      unfold decisions_shm_zone_init in rw n refl,
      λ ours. false≢true (sym n ∙ (layout_matches_iff old).1 ours),
    )
  ]
