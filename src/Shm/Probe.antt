-- ===== src/Shm/Probe.antt =====
-- src/shm.rs: the loop that `find_slot_ip`, `find_slot_cidr`, `find_vacant_slot` and
-- `evict_clock_matching` share: from a slot, round the table, until the body returns or the loop is
-- back where it started.
pub mod Outcome
use native.Mathlib.Nat.{mod-lt, mod-eq_of_lt, mod-add-mod}
use ngx_http_crowdsec_module.Base.{
  ℕ, zero, suc, ◌+◌, ◌-◌, ◌%◌, ◌≤◌, ◌<◌, ◌≡◌, ◌≢◌, refl, sym, ap, ◌∙◌, ◌⊎◌, inl, inr, Bool, true,
  false, Option, none, some, ◌==◌, if◌then◌else◌, arith, Bool-cases, Option-cases,
}

-- `body` is what one round returns, if it does; `wrapped` what the loop returns when the next slot
-- is the first. The fuel is the table's capacity, and `out` the value should it run out.
unfoldable pub probe {ℓ} : {R : Type ℓ} → R → ℕ → ℕ → (ℕ → Option R) → (ℕ → R) → ℕ → ℕ → R
probe out capacity start body wrapped zero idx = out
probe out capacity start body wrapped (suc fuel) idx =
    let next = (idx + 1) % capacity in
    let rest = probe out capacity start body wrapped fuel next in
    elim (body idx) [ some r ↦ r | none ↦ if next == start then wrapped next else rest ]

-- The slot that is `d` places behind `start`.
abbrev pub slot : ℕ → ℕ → ℕ → ℕ
slot capacity start d = (start + d) % capacity

pub slot_next :
    (capacity start d : ℕ)
    → start < capacity
    → d < capacity
    → (slot capacity start d + 1) % capacity ≡ slot capacity start (suc d)
slot_next capacity start d h hd =
    mod-add-mod (start + d) capacity 1 ∙ ap (λ (t : ℕ). t % capacity) (omega arith)

pub slot_last :
    (capacity start d : ℕ)
    → start < capacity
    → suc d ≡ capacity
    → slot capacity start (suc d) ≡ start
slot_last capacity start d h hd = grind arith

pub slot_inner :
    (capacity start d : ℕ)
    → start < capacity
    → suc d < capacity
    → slot capacity start (suc d) ≢ start
slot_inner capacity start d h hd = grind arith

-- Every slot is met within one round.
pub slot_of :
    (capacity start i : ℕ)
    → start < capacity
    → i < capacity
    → (d : ℕ) × (d < capacity) × (slot capacity start d ≡ i)
slot_of capacity start i h hi = ((i + capacity - start) % capacity, grind arith, grind arith)
