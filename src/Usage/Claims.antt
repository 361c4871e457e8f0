-- ===== src/Usage/Claims.antt =====
-- The rounds of `bucket_inc`, and that claiming a bucket keeps the invariant of the table.
use native.Mathlib.Nat.{mod-lt}
use native.Mathlib.Decide.{ℕ_discrete}
use ngx_http_crowdsec_module.Base.{
  ℕ, ◌<◌, ◌≡◌, ◌≢◌, refl, sym, ap, subst, ◌∙◌, ◌⊎◌, true, none, some, List, set, arith,
  get_or-set_self, get_or-set_ne, length-set,
}
use ngx_http_crowdsec_module.Base.Words.{u64_mod}
use ngx_http_crowdsec_module.Usage.{
  BucketKey, UsageBucket, zeroed, hash, key_of, holds, claimed, raised, inc_at,
}
use ngx_http_crowdsec_module.Usage.Keys.{IsKey, holds_key, hash-ne-zero}
use ngx_http_crowdsec_module.Usage.Counts.{at, way, Used, Used-of, IsValid}

-- What a round that goes on has seen.
passed_free :
    (key : BucketKey) (delta : ℕ) (bs : List UsageBucket) (i : ℕ)
    → inc_at key delta bs i ≡ none
    → (at bs i).key_hash ≢ 0
unfolding inc_at
passed_free key delta bs i e = ground arith

passed_held :
    (key : BucketKey) (delta : ℕ) (bs : List UsageBucket) (i : ℕ)
    → inc_at key delta bs i ≡ none
    → (at bs i).key_hash ≡ hash key
    → holds (at bs i) key ≡ true
    → ⊥
unfolding inc_at
passed_held key delta bs i e h t = ground arith

-- What a round that returns has done.
pub inc_at_cases :
    (key : BucketKey) (delta : ℕ) (bs : List UsageBucket) (i : ℕ) (r : List UsageBucket)
    → inc_at key delta bs i ≡ some r
    → ((r ≡ set bs i (raised (at bs i) delta))
        × ((at bs i).key_hash ≡ hash key)
        × (holds (at bs i) key ≡ true))
      ⊎ ((r ≡ set bs i (claimed key delta)) × ((at bs i).key_hash ≡ 0))
unfolding inc_at
inc_at_cases key delta bs i r e = ground arith

module _ (key : BucketKey) (delta : ℕ) (is_key : IsKey key) {count : ℕ} {bs : List UsageBucket}
    (v : IsValid count bs) where
  -- A bucket that a round passed is in use for another key.
  pub passed_other :
      (i : ℕ)
      → i < count
      → inc_at key delta bs i ≡ none
      → ((at bs i).key_hash ≢ 0) × (key_of (at bs i) ≢ key)
  passed_other i h e =
      let n = passed_free key delta bs i e in
      let u = v.used i h n in
      (
        n,
        λ k.
            passed_held key delta bs i e (u.hashed ∙ ap hash k)
              (holds_key (at bs i) key u.written k),
      )

  abbrev pub claim : ℕ → List UsageBucket
  claim i = set bs i (claimed key delta)

  module _ (d : ℕ) (dh : d < count) (free : (at bs (way count key d)).key_hash ≡ 0)
      (past : (e : ℕ) → e < d → inc_at key delta bs (way count key e) ≡ none) where
    abbrev pub spot : ℕ
    spot = way count key d

    spot_in_range : spot < count
    spot_in_range = mod-lt _ v.has_bucket

    way_in_range : (k : BucketKey) (e : ℕ) → way count k e < count
    way_in_range k e = mod-lt _ v.has_bucket

    claim_self : at (claim spot) spot ≡ claimed key delta
    claim_self =
        get_or-set_self bs spot (claimed key delta) zeroed
          (subst (λ n. spot < n) (sym v.sized) spot_in_range)

    claim_other : (j : ℕ) → spot ≢ j → at (claim spot) j ≡ at bs j
    claim_other j n = get_or-set_ne bs spot j (claimed key delta) zeroed n

    -- What stood in a bucket in use still stands there.
    claim_used : (j : ℕ) → (at bs j).key_hash ≢ 0 → at (claim spot) j ≡ at bs j
    claim_used j n = claim_other j (λ e. n (ap (λ (t : ℕ). (at bs t).key_hash) (sym e) ∙ free))

    claim-Used_self : Used count (claim spot) spot
    claim-Used_self =
        Used-of (claim spot) spot (claimed key delta) claim_self refl (λ (z : 1 ≡ 0). omega arith)
          is_key d dh refl
          (λ e lt.
            let (n, k) = passed_other (way count key e) (way_in_range key e) (past e lt) in
            subst (λ b. (b.key_hash ≢ 0) × (key_of b ≢ key)) (sym (claim_used _ n)) (n, k))

    claim-Used_other : (j : ℕ) → spot ≢ j → Used count bs j → Used count (claim spot) j
    claim-Used_other j n u =
        Used-of (claim spot) j (at bs j) (claim_other j n) u.hashed u.written u.is_key u.place
          (u.placed).0 (u.placed).1
          (λ e lt.
            let (m, k) = u.behind e lt in
            subst (λ b. (b.key_hash ≢ 0) × (key_of b ≢ key_of (at bs j))) (sym (claim_used _ m))
              (m, k))

    pub claim-IsValid : delta < u64_mod → IsValid count (claim spot)
    claim-IsValid small = record {
      sized = length-set bs spot (claimed key delta) ∙ v.sized;
      has_bucket = v.has_bucket;
      in_range = λ j l. elim (ℕ_discrete spot j) [
        | yes e ↦ rw (← e, claim_self) small
        | no n ↦ rw (claim_other j n) (v.in_range j l)
      ];
      unused = λ j l z. elim (ℕ_discrete spot j) [
        | yes e ↦ absurd (
            hash-ne-zero key (
              ap (λ (b : UsageBucket). b.key_hash) (sym claim_self)
              ∙ ap (λ (t : ℕ). (at (claim spot) t).key_hash) e
              ∙ z))
        | no n ↦
            ap (λ (b : UsageBucket). b.ready) (claim_other j n)
            ∙ v.unused j l (ap (λ (b : UsageBucket). b.key_hash) (sym (claim_other j n)) ∙ z)
      ];
      used = λ j l m. elim (ℕ_discrete spot j) [
        | yes e ↦ subst (Used count (claim spot)) e claim-Used_self
        | no n ↦
            claim-Used_other j n
              (v.used j l (λ z. m (ap (λ (b : UsageBucket). b.key_hash) (claim_other j n) ∙ z)))
      ];
    }
