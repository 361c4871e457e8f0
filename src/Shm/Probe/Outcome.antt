-- ===== src/Shm/Probe/Outcome.antt =====
-- What a probe returns: the body's result at the first slot where it has one, or else, after every
-- slot was met once, what the loop returns when it is back at the start.
use native.Mathlib.Nat.{add-zero, mod-eq_of_lt}
use native.Mathlib.Decide.{ℕ_discrete}
use ngx_http_crowdsec_module.Base.{
  ℕ, zero, suc, ◌+◌, ◌-◌, ◌%◌, ◌≤◌, ◌<◌, ◌≡◌, ◌≢◌, refl, sym, ap, subst, ◌∙◌, ◌⊎◌, inl, inr, Option,
  none, some, arith, Option-cases,
}
use ngx_http_crowdsec_module.Shm.Probe.{probe, slot, slot_next, slot_last, slot_inner}

module _ {ℓ} {R : Type ℓ} (capacity start : ℕ) (body : ℕ → Option R) (wrapped : ℕ → R) where
  -- The body returned at none of the first `n` slots.
  abbrev pub Passed : ℕ → Type ℓ
  Passed n = (d : ℕ) → d < n → body (slot capacity start d) ≡ none

  abbrev pub Outcome : R → Type ℓ
  Outcome r =
      ((d : ℕ) × (d < capacity) × (body (slot capacity start d) ≡ some r) × Passed d)
      ⊎ ((r ≡ wrapped start) × Passed capacity)

  Passed-suc : (d : ℕ) → body (slot capacity start d) ≡ none → Passed d → Passed (suc d)
  Passed-suc d h past k lt = elim (ℕ_discrete k d) [ yes e ↦ rw e h | no e ↦ past k (omega arith) ]

  module _ (out : R) where
    probe_hit :
        (fuel idx : ℕ) (r : R)
        → body idx ≡ some r
        → probe out capacity start body wrapped (suc fuel) idx ≡ r
    unfolding probe
    probe_hit fuel idx r b = rw (b, probe)

    probe_wrap :
        (fuel idx : ℕ)
        → body idx ≡ none
        → (idx + 1) % capacity ≡ start
        → probe out capacity start body wrapped (suc fuel) idx ≡ wrapped start
    unfolding probe
    probe_wrap fuel idx b e = rw (b, probe) (ground arith)

    probe_on :
        (fuel idx : ℕ)
        → body idx ≡ none
        → (idx + 1) % capacity ≢ start
        → probe out capacity start body wrapped (suc fuel) idx
          ≡ probe out capacity start body wrapped fuel ((idx + 1) % capacity)
    unfolding probe
    probe_on fuel idx b e = rw (b, probe) (ground arith)

    module _ (in_range : start < capacity) where
      abbrev at : ℕ → ℕ → R
      at fuel d = probe out capacity start body wrapped fuel (slot capacity start d)

      at_last :
          (d : ℕ) → suc d ≡ capacity → body (slot capacity start d) ≡ none → at 1 d ≡ wrapped start
      at_last d e b = probe_wrap 0 _ b (
          slot_next capacity start d in_range (omega arith) ∙ slot_last capacity start d in_range e)

      at_inner :
          (fuel d : ℕ)
          → suc d < capacity
          → body (slot capacity start d) ≡ none
          → at (suc fuel) d ≡ at fuel (suc d)
      at_inner fuel d lt b =
          let n = slot_next capacity start d in_range (omega arith) in
          probe_on fuel _ b (rw n (slot_inner capacity start d in_range lt))
          ∙ ap (probe out capacity start body wrapped fuel) n

      probe_from : (fuel d : ℕ) → suc d + fuel ≡ capacity → Passed d → Outcome (at (suc fuel) d)
      probe_from zero d e past = elim (Option-cases (body (slot capacity start d))) [
        | inr (r, b) ↦ rw (probe_hit 0 _ r b) (inl (d, omega arith, b, past))
        | inl b ↦
            let full : suc d ≡ capacity = omega arith in
            rw (at_last d full b) (inr (refl, subst Passed full (Passed-suc d b past)))
      ]
      probe_from (suc fuel) d e past = elim (Option-cases (body (slot capacity start d))) [
        | inr (r, b) ↦ rw (probe_hit (suc fuel) _ r b) (inl (d, omega arith, b, past))
        | inl b ↦
            rw (at_inner (suc fuel) d (omega arith) b)
              (probe_from fuel (suc d) (omega arith) (Passed-suc d b past))
      ]

      pub probe-Outcome : Outcome (probe out capacity start body wrapped capacity start)
      probe-Outcome =
          let all : suc (capacity - 1) ≡ capacity = omega arith in
          let here : slot capacity start 0 ≡ start = rw add-zero (mod-eq_of_lt in_range) in
          subst (λ f. Outcome (probe out capacity start body wrapped f start)) all
            (subst (λ i. Outcome (probe out capacity start body wrapped (suc (capacity - 1)) i))
              here (probe_from (capacity - 1) 0 (omega arith) (λ k lt. elim lt [ ])))

  -- With at least as much fuel as rounds are left, neither the fuel nor `out` matters.
  probe_enough :
      (out out' : R)
      → start < capacity
      → (fuel more d : ℕ) → suc d + fuel ≡ capacity
      → fuel ≤ more
      → probe out capacity start body wrapped (suc more) (slot capacity start d)
        ≡ probe out' capacity start body wrapped (suc fuel) (slot capacity start d)
  probe_enough out out' in_range zero more d e le =
      elim (Option-cases (body (slot capacity start d))) [
        | inr (r, b) ↦ probe_hit out more _ r b ∙ sym (probe_hit out' 0 _ r b)
        | inl b ↦
            let full : suc d ≡ capacity = omega arith in
            let back : (slot capacity start d + 1) % capacity ≡ start =
              slot_next capacity start d in_range (omega arith)
              ∙ slot_last capacity start d in_range full in
            probe_wrap out more _ b back ∙ sym (probe_wrap out' 0 _ b back)
      ]
  probe_enough out out' in_range (suc fuel) zero d e le = absurd (omega arith)
  probe_enough out out' in_range (suc fuel) (suc more) d e le =
      elim (Option-cases (body (slot capacity start d))) [
        | inr (r, b) ↦ probe_hit out (suc more) _ r b ∙ sym (probe_hit out' (suc fuel) _ r b)
        | inl b ↦
            at_inner out in_range (suc more) d (omega arith) b
            ∙ probe_enough out out' in_range fuel more (suc d) (omega arith) (omega arith)
            ∙ sym (at_inner out' in_range (suc fuel) d (omega arith) b)
      ]

  -- The loop over the table ends within one round: from a slot of the table, more fuel than its
  -- capacity changes nothing, and the value for fuel that ran out is never returned.
  pub probe_fuel :
      (out out' : R) (fuel : ℕ)
      → start < capacity
      → capacity ≤ fuel
      → probe out capacity start body wrapped fuel start
        ≡ probe out' capacity start body wrapped capacity start
  probe_fuel out out' fuel in_range le =
      let f : suc (fuel - 1) ≡ fuel = omega arith in
      let c : suc (capacity - 1) ≡ capacity = omega arith in
      let here : slot capacity start 0 ≡ start = rw add-zero (mod-eq_of_lt in_range) in
      let e =
        probe_enough out out' in_range (capacity - 1) (fuel - 1) 0 (omega arith) (omega arith) in
      subst
        (λ a.
          probe out capacity start body wrapped a start
          ≡ probe out' capacity start body wrapped capacity start)
        f
        (subst
          (λ b.
            probe out capacity start body wrapped (suc (fuel - 1)) start
            ≡ probe out' capacity start body wrapped b start)
          c
          (subst
            (λ i.
              probe out capacity start body wrapped (suc (fuel - 1)) i
              ≡ probe out' capacity start body wrapped (suc (capacity - 1)) i)
            here e))
