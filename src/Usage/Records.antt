-- ===== src/Usage/Records.antt =====
-- `bucket_inc` keeps the invariant of the table, and counts for its key and for no other.
use native.Mathlib.Nat.{mod-lt}
use ngx_http_crowdsec_module.Base.{
  ℕ, ◌+◌, ◌%◌, ◌≤◌, ◌<◌, ◌≡◌, ◌≢◌, refl, sym, ap, subst, ◌∙◌, ◌⊎◌, inl, inr, true, List,
  if◌then◌else◌, length, set, arith, false≢true, Bool-cases,
}
use ngx_http_crowdsec_module.Base.Words.{u64_mod}
use ngx_http_crowdsec_module.Shm.Probe.{slot_of}
use ngx_http_crowdsec_module.Shm.Probe.Outcome.{Outcome, probe-Outcome}
use ngx_http_crowdsec_module.Usage.{
  BucketKey, UsageBucket, hash, key_of, holds, claimed, raised, inc_at, inc_buckets,
}
use ngx_http_crowdsec_module.Usage.Items.{key_eq}
use ngx_http_crowdsec_module.Usage.Keys.{IsKey, key_eq_iff, holds-eq, hash-ne-zero}
use ngx_http_crowdsec_module.Usage.Counts.{
  at, weight-le-tally, weight_unused, weight_nothing, weight, tally, tally-set, weight_same,
  weight_other, IsValid,
}
use ngx_http_crowdsec_module.Usage.Values.{revalued-IsValid}
use ngx_http_crowdsec_module.Usage.Claims.{passed_other, claim-IsValid, inc_at_cases}

-- What is added to the count of `k` where `key` is counted.
abbrev pub share : BucketKey → BucketKey → ℕ → ℕ
share k key delta = if key_eq key k then delta else 0

pub weight_raised :
    (k key : BucketKey) (b b' : UsageBucket) (delta : ℕ)
    → b.ready ≢ 0
    → b'.ready ≢ 0
    → key_of b ≡ key
    → key_of b' ≡ key
    → b'.value ≡ b.value + delta
    → weight k b' ≡ weight k b + share k key delta
weight_raised k key b b' delta r r' e e' h = elim (Bool-cases (key_eq key k)) [
  | inl t ↦
      let s = (key_eq_iff key k).0 t in
      rw (t, weight_same k b r (e ∙ s), weight_same k b' r' (e' ∙ s)) h
  | inr f ↦
      let n : key ≢ k = λ s. false≢true (sym f ∙ (key_eq_iff key k).1 s) in
      rw (f, weight_other k b (λ s. n (sym e ∙ s)), weight_other k b' (λ s. n (sym e' ∙ s)))
        (omega arith)
]

-- Every bucket is in use, and for another key.
abbrev pub NoRoom : ℕ → List UsageBucket → BucketKey → Type 0
NoRoom count bs key = (i : ℕ) → i < count → ((at bs i).key_hash ≢ 0) × (key_of (at bs i) ≢ key)

abbrev pub CountsFor : List UsageBucket → BucketKey → ℕ → List UsageBucket → Type 0
CountsFor bs key delta r = (k : BucketKey) → tally k r ≡ tally k bs + share k key delta

-- A call leaves the table as it was, if there is no room; else it adds to the count of its key and
-- leaves those of the others.
abbrev pub Recorded : ℕ → List UsageBucket → BucketKey → ℕ → List UsageBucket → Type 0
Recorded count bs key delta r = ((r ≡ bs) × NoRoom count bs key) ⊎ CountsFor bs key delta r

module _ (key : BucketKey) (delta : ℕ) (is_key : IsKey key) {count : ℕ} {bs : List UsageBucket}
    (v : IsValid count bs) (fits : tally key bs + delta < u64_mod) where
  in_list : (i : ℕ) → i < count → i < length bs
  in_list i h = subst (λ n. i < n) (sym v.sized) h

  raise-Recorded :
      (i : ℕ)
      → i < count
      → (at bs i).key_hash ≡ hash key
      → holds (at bs i) key ≡ true
      → IsValid count (set bs i (raised (at bs i) delta))
        × ((k : BucketKey)
            → tally k (set bs i (raised (at bs i) delta)) ≡ tally k bs + share k key delta)
  raise-Recorded i h e t =
      let u = v.used i h (λ z. hash-ne-zero key (sym e ∙ z)) in
      let s = holds-eq (at bs i) key u.is_key is_key t in
      let top : (at bs i).value ≤ tally key bs =
        rw (← weight_same key (at bs i) u.written s) (weight-le-tally key bs i (in_list i h)) in
      let sum : ((at bs i).value + delta) % u64_mod ≡ (at bs i).value + delta = omega arith in
      (
        revalued-IsValid v i _ h (omega arith),
        λ k. omega (
          arith,
          tally-set k bs i (raised (at bs i) delta) (in_list i h),
          weight_raised k key (at bs i) (raised (at bs i) delta) delta u.written u.written s s sum,
        ),
      )

  claim-Recorded :
      (i : ℕ)
      → i < count
      → (at bs i).key_hash ≡ 0
      → (k : BucketKey) → tally k (set bs i (claimed key delta)) ≡ tally k bs + share k key delta
  claim-Recorded i h free k =
      let none_before : weight k (at bs i) ≡ 0 = weight_unused k (at bs i) (v.unused i h free) in
      let now =
        weight_raised k key (claimed key 0) (claimed key delta) delta (λ (z : 1 ≡ 0). omega arith)
          (λ (z : 1 ≡ 0). omega arith) refl refl (omega arith) in
      let zero_now : weight k (claimed key 0) ≡ 0 = weight_nothing k (claimed key 0) refl in
      omega (arith, tally-set k bs i (claimed key delta) (in_list i h))

  -- On a table that keeps its invariant, for a key of labels whose counter does not overflow,
  -- counting keeps the invariant; it adds to the counter of the key and leaves those of the
  -- others, or changes nothing where every bucket is in use for another key.
  pub inc_buckets-Recorded :
      IsValid count (inc_buckets key delta count bs)
      × Recorded count bs key delta (inc_buckets key delta count bs)
  unfolding inc_buckets
  inc_buckets-Recorded = on_outcome _ (
      probe-Outcome count (hash key % count) (inc_at key delta bs) (λ _. bs) bs
        (mod-lt _ v.has_bucket))
    where
      on_outcome :
          (r : List UsageBucket)
          → Outcome count (hash key % count) (inc_at key delta bs) (λ _. bs) r
          → IsValid count r × Recorded count bs key delta r
      on_outcome r (inr (e, past)) = (
        subst (IsValid count) (sym e) v,
        inl (
          e,
          λ i h.
              let (d, l, s) = slot_of count (hash key % count) i (mod-lt _ v.has_bucket) h in
              passed_other key delta is_key v i h (ap (inc_at key delta bs) (sym s) ∙ past d l),
        ),
      )
      on_outcome r (inl (d, l, hit, past)) = elim (inc_at_cases key delta bs _ r hit) [
        | inl (e, h, t) ↦
            let (valid, counts) = raise-Recorded _ (mod-lt _ v.has_bucket) h t in
            (
              subst (IsValid count) (sym e) valid,
              inr (subst (CountsFor bs key delta) (sym e) counts),
            )
        | inr (e, free) ↦ (
          subst (IsValid count) (sym e)
              (claim-IsValid key delta is_key v d l free past (omega arith)),
          inr (
              subst (CountsFor bs key delta) (sym e)
                (claim-Recorded _ (mod-lt _ v.has_bucket) free)),
        )
      ]
