-- ===== src/Usage/Drains.antt =====
-- `reset_after_push` takes off the counts what was reported, and nothing else.
use native.Mathlib.Nat.{mod-lt}
use native.Mathlib.Decide.{ℕ_discrete}
use ngx_http_crowdsec_module.Base.{
  ℕ, ◌+◌, ◌-◌, ◌%◌, ◌≤◌, ◌<◌, ◌≡◌, ◌≢◌, sym, ap, subst, ◌∙◌, inl, inr, true, none, some, List,
  length, set, arith,
}
use ngx_http_crowdsec_module.Base.Words.{u64_mod}
use ngx_http_crowdsec_module.Shm.Probe.{slot_of}
use ngx_http_crowdsec_module.Shm.Probe.Outcome.{Outcome, probe-Outcome}
use ngx_http_crowdsec_module.Usage.{BucketKey, UsageBucket, hash}
use ngx_http_crowdsec_module.Usage.Items.{is_bucket_of, lowered, reset_at, reset_one}
use ngx_http_crowdsec_module.Usage.Keys.{is_bucket_of_iff, hash-ne-zero}
use ngx_http_crowdsec_module.Usage.Counts.{
  at, weight, tally, tally-set, tally_zero, tally_alone, weight_same, IsValid, used_of, at_unique,
}
use ngx_http_crowdsec_module.Usage.Values.{revalued-IsValid}
use ngx_http_crowdsec_module.Usage.Records.{share, weight_raised}

reset_at-some :
    (key : BucketKey) (n : ℕ) (bs : List UsageBucket) (i : ℕ) (r : List UsageBucket)
    → reset_at key n bs i ≡ some r
    → (r ≡ set bs i (lowered (at bs i) n)) × (is_bucket_of key (at bs i) ≡ true)
unfolding reset_at
reset_at-some key n bs i r e = ground arith

reset_at-none :
    (key : BucketKey) (n : ℕ) (bs : List UsageBucket) (i : ℕ)
    → reset_at key n bs i ≡ none
    → is_bucket_of key (at bs i) ≡ true
    → ⊥
unfolding reset_at
reset_at-none key n bs i e t = ground arith

-- The counts after `n` is taken off that of `key`.
abbrev pub TakenOff : List UsageBucket → BucketKey → ℕ → List UsageBucket → Type 0
TakenOff bs key n r = (k : BucketKey) → tally k r + share k key n ≡ tally k bs

module _ (key : BucketKey) (n : ℕ) {count : ℕ} {bs : List UsageBucket} (v : IsValid count bs)
    (enough : n ≤ tally key bs) where
  -- The bucket of a key that counts is one that the loop looks for.
  found_at : (i : ℕ) → i < count → weight key (at bs i) ≢ 0 → is_bucket_of key (at bs i) ≡ true
  found_at i h w =
      let (m, e) = used_of v key i h w in
      let u = v.used i h m in
      (is_bucket_of_iff (at bs i) key).1 (u.hashed ∙ ap hash e, u.written, e)

  lower-TakenOff :
      (i : ℕ)
      → i < count
      → is_bucket_of key (at bs i) ≡ true
      → IsValid count (set bs i (lowered (at bs i) n))
        × TakenOff bs key n (set bs i (lowered (at bs i) n))
  lower-TakenOff i h t =
      let (hashed, written, same) = (is_bucket_of_iff (at bs i) key).0 t in
      let others : (j : ℕ) → j < length bs → i ≢ j → weight key (at bs j) ≡ 0 = λ j l d.
        elim (ℕ_discrete (weight key (at bs j)) 0) [
          | yes z ↦ z
          | no w ↦
              let (m, e) = used_of v key j (omega (arith, v.sized)) w in
              absurd (
                d (
                  at_unique v i j h (omega (arith, v.sized))
                    (λ z. hash-ne-zero key (sym hashed ∙ z)) m (same ∙ sym e)))
        ] in
      let whole : tally key bs ≡ (at bs i).value =
        tally_alone key bs i (omega (arith, v.sized)) others
        ∙ weight_same key (at bs i) written same in
      let small = v.in_range i h in
      let left : (at bs i).value ≡ ((at bs i).value + u64_mod - n) % u64_mod + n = omega arith in
      (
        revalued-IsValid v i _ h (omega arith),
        λ k. omega (
          arith,
          tally-set k bs i (lowered (at bs i) n) (omega (arith, v.sized)),
          weight_raised k key (lowered (at bs i) n) (at bs i) n written written same same left,
        ),
      )

  pub reset_one-TakenOff :
      IsValid count (reset_one key n count bs) × TakenOff bs key n (reset_one key n count bs)
  unfolding reset_one
  reset_one-TakenOff = on_outcome _ (
      probe-Outcome count (hash key % count) (reset_at key n bs) (λ _. bs) bs
        (mod-lt _ v.has_bucket))
    where
      on_outcome :
          (r : List UsageBucket)
          → Outcome count (hash key % count) (reset_at key n bs) (λ _. bs) r
          → IsValid count r × TakenOff bs key n r
      on_outcome r (inr (e, past)) =
          let nothing : tally key bs ≡ 0 = tally_zero key bs (λ i l.
            elim (ℕ_discrete (weight key (at bs i)) 0) [
              | yes z ↦ z
              | no w ↦
                  let h : i < count = omega (arith, v.sized) in
                  let (d, dl, s) = slot_of count (hash key % count) i (mod-lt _ v.has_bucket) h in
                  absurd (
                    reset_at-none key n bs i (ap (reset_at key n bs) (sym s) ∙ past d dl)
                      (found_at i h w))
            ]) in
          (subst (IsValid count) (sym e) v, subst (TakenOff bs key n) (sym e) (λ k. ground arith))
      on_outcome r (inl (d, l, hit, past)) =
          let (e, t) = reset_at-some key n bs _ r hit in
          let (valid, off) = lower-TakenOff _ (mod-lt _ v.has_bucket) t in
          (subst (IsValid count) (sym e) valid, subst (TakenOff bs key n) (sym e) off)
