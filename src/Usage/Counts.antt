-- ===== src/Usage/Counts.antt =====
-- What the table counts for a key, and the invariant of the table: a bucket stands on the way that
-- starts at the hash of its key, behind buckets of other keys.
use native.Mathlib.Decide.{ℕ_discrete, dec_lt}
use ngx_http_crowdsec_module.Base.{
  ℕ, zero, suc, ◌+◌, ◌%◌, ◌≤◌, ◌<◌, ◌≡◌, ◌≢◌, refl, sym, ap, subst, ◌∙◌, not, ◌&&◌, List, [], ◌∷◌,
  ◌==◌, if◌then◌else◌, length, get_or, set, arith, get_or-set_self, get_or-set_ne, length-set,
}
use ngx_http_crowdsec_module.Base.Words.{u64_mod}
use ngx_http_crowdsec_module.Shm.Probe.{slot}
use ngx_http_crowdsec_module.Usage.{BucketKey, UsageBucket, zeroed, hash, key_of}
use ngx_http_crowdsec_module.Usage.Items.{key_eq}
use ngx_http_crowdsec_module.Usage.Keys.{IsKey, key_eq_iff}

-- What one bucket counts for a key.
unfoldable pub weight : BucketKey → UsageBucket → ℕ
unfolding key_eq
weight k b = if not (b.ready == 0) && key_eq (key_of b) k then b.value else 0

-- The sum over the buckets.
unfoldable pub tally : BucketKey → List UsageBucket → ℕ
unfolding weight
tally k [] = 0
tally k (b ∷ bs) = weight k b + tally k bs

abbrev pub at : List UsageBucket → ℕ → UsageBucket
at bs i = get_or bs i zeroed

-- The bucket at `i` is in use for its key, `place` slots behind the first slot for it.
pub record Used (count : ℕ) (bs : List UsageBucket) (i : ℕ) : Type 0 where
  pub hashed : (at bs i).key_hash ≡ hash (key_of (at bs i))
  pub written : (at bs i).ready ≢ 0
  pub is_key : IsKey (key_of (at bs i))
  pub place : ℕ
  pub placed : (place < count) × (slot count (hash (key_of (at bs i)) % count) place ≡ i)
  pub behind :
      (e : ℕ)
      → e < place
      → ((at bs (slot count (hash (key_of (at bs i)) % count) e)).key_hash ≢ 0)
        × (key_of (at bs (slot count (hash (key_of (at bs i)) % count) e)) ≢ key_of (at bs i))

pub record IsValid (count : ℕ) (bs : List UsageBucket) : Type 0 where
  pub sized : length bs ≡ count
  pub has_bucket : 0 < count
  pub in_range : (i : ℕ) → i < count → (at bs i).value < u64_mod
  pub unused : (i : ℕ) → i < count → (at bs i).key_hash ≡ 0 → (at bs i).ready ≡ 0
  pub used : (i : ℕ) → i < count → (at bs i).key_hash ≢ 0 → Used count bs i

-- One write moves the difference.
pub tally-set :
    (k : BucketKey) (bs : List UsageBucket) (i : ℕ) (b : UsageBucket)
    → i < length bs
    → tally k (set bs i b) + weight k (at bs i) ≡ tally k bs + weight k b
unfolding tally
tally-set k [] i b h = absurd (omega arith)
tally-set k (x ∷ bs) zero b h = omega arith
tally-set k (x ∷ bs) (suc i) b h = omega (arith, tally-set k bs i b (omega arith))

pub tally_zero :
    (k : BucketKey) (bs : List UsageBucket)
    → ((i : ℕ) → i < length bs → weight k (at bs i) ≡ 0)
    → tally k bs ≡ 0
unfolding tally
tally_zero k [] h = refl
tally_zero k (b ∷ bs) h =
    let t = tally_zero k bs (λ i l. h (suc i) (omega arith)) in
    let w : weight k b ≡ 0 = h 0 (omega arith) in omega arith

pub weight-le-tally :
    (k : BucketKey) (bs : List UsageBucket) (i : ℕ)
    → i < length bs
    → weight k (at bs i) ≤ tally k bs
unfolding tally
weight-le-tally k [] i h = absurd (omega arith)
weight-le-tally k (b ∷ bs) zero h = omega arith
weight-le-tally k (b ∷ bs) (suc i) h = omega (arith, weight-le-tally k bs i (omega arith))

-- A key that no other bucket counts has what its bucket holds.
pub tally_alone :
    (k : BucketKey) (bs : List UsageBucket) (i : ℕ)
    → i < length bs
    → ((j : ℕ) → j < length bs → i ≢ j → weight k (at bs j) ≡ 0)
    → tally k bs ≡ weight k (at bs i)
tally_alone k bs i h others =
    let z : weight k zeroed ≡ 0 = unfold weight in refl in
    let rest : tally k (set bs i zeroed) ≡ 0 = tally_zero k (set bs i zeroed) emptied in
    omega (arith, tally-set k bs i zeroed h)
  where
    emptied : (j : ℕ) → j < length (set bs i zeroed) → weight k (at (set bs i zeroed) j) ≡ 0
    emptied j l = elim (ℕ_discrete i j) [
      | yes e ↦ rw (← e, get_or-set_self bs i zeroed zeroed h) (unfold weight in refl)
      | no n ↦
          rw (get_or-set_ne bs i j zeroed zeroed n)
            (others j (omega (arith, length-set bs i zeroed)) n)
    ]

pub weight_same :
    (k : BucketKey) (b : UsageBucket) → b.ready ≢ 0 → key_of b ≡ k → weight k b ≡ b.value
unfolding weight
weight_same k b r e = ground (arith, key_eq_iff (key_of b) k)

pub weight_other : (k : BucketKey) (b : UsageBucket) → key_of b ≢ k → weight k b ≡ 0
unfolding weight
weight_other k b n = ground (arith, key_eq_iff (key_of b) k)

pub weight_unused : (k : BucketKey) (b : UsageBucket) → b.ready ≡ 0 → weight k b ≡ 0
unfolding weight
weight_unused k b r = ground arith

pub weight_nothing : (k : BucketKey) (b : UsageBucket) → b.value ≡ 0 → weight k b ≡ 0
unfolding weight
weight_nothing k b r = ground arith

module _ {count : ℕ} {bs : List UsageBucket} (v : IsValid count bs) where
  -- A bucket that counts for a key is in use for it.
  pub used_of :
      (k : BucketKey) (i : ℕ)
      → i < count
      → weight k (at bs i) ≢ 0
      → ((at bs i).key_hash ≢ 0) × (key_of (at bs i) ≡ k)
  unfolding weight
  used_of k i h w = ground (arith, v.unused i h, key_eq_iff (key_of (at bs i)) k)

-- The slot that is `d` places behind the first one for a key.
abbrev pub way : ℕ → BucketKey → ℕ → ℕ
way count k d = slot count (hash k % count) d

module _ {count : ℕ} {bs : List UsageBucket} where
  not_before :
      {i j : ℕ} (a : Used count bs i) (b : Used count bs j)
      → key_of (at bs i) ≡ key_of (at bs j)
      → a.place < b.place
      → ⊥
  not_before a b e lt =
      let here = ap (λ (k : BucketKey). way count k a.place) (sym e) ∙ (a.placed).1 in
      (b.behind a.place lt).1 (ap (λ (t : ℕ). key_of (at bs t)) here ∙ e)

  same_place :
      {i j : ℕ} (a : Used count bs i) (b : Used count bs j)
      → key_of (at bs i) ≡ key_of (at bs j)
      → a.place ≡ b.place
  same_place a b e = elim (dec_lt (a.place) (b.place)) [
    | yes lt ↦ absurd (not_before a b e lt)
    | no n ↦ elim (dec_lt (b.place) (a.place)) [
      | yes gt ↦ absurd (not_before b a (sym e) gt)
      | no m ↦ omega arith
    ]
  ]

  Used-unique :
      {i j : ℕ} → Used count bs i → Used count bs j → key_of (at bs i) ≡ key_of (at bs j) → i ≡ j
  Used-unique a b e =
      sym (a.placed).1
      ∙ ap (λ (k : BucketKey). way count k a.place) e
      ∙ ap (way count (key_of (at bs _))) (same_place a b e)
      ∙ (b.placed).1

  -- No two buckets are in use for one key.
  pub at_unique :
      (v : IsValid count bs) (i j : ℕ)
      → i < count
      → j < count
      → (at bs i).key_hash ≢ 0
      → (at bs j).key_hash ≢ 0
      → key_of (at bs i) ≡ key_of (at bs j)
      → i ≡ j
  at_unique v i j hi hj ni nj = Used-unique (v.used i hi ni) (v.used j hj nj)

-- A bucket is in use where it equals one that would be.
pub Used-of :
    {count : ℕ} (bs : List UsageBucket) (i : ℕ) (b : UsageBucket)
    → at bs i ≡ b
    → b.key_hash ≡ hash (key_of b)
    → b.ready ≢ 0
    → IsKey (key_of b)
    → (d : ℕ) → d < count
    → way count (key_of b) d ≡ i
    → ((e : ℕ)
        → e < d
        → ((at bs (way count (key_of b) e)).key_hash ≢ 0)
          × (key_of (at bs (way count (key_of b) e)) ≢ key_of b))
    → Used count bs i
Used-of {count} bs i b e =
    subst
      (λ b.
        b.key_hash ≡ hash (key_of b)
        → b.ready ≢ 0
        → IsKey (key_of b)
        → (d : ℕ) → d < count
        → way count (key_of b) d ≡ i
        → ((e : ℕ)
            → e < d
            → ((at bs (way count (key_of b) e)).key_hash ≢ 0)
              × (key_of (at bs (way count (key_of b) e)) ≢ key_of b))
        → Used count bs i)
      e
      (λ h r k d l w p. record {
        hashed = h;
        written = r;
        is_key = k;
        place = d;
        placed = (l, w);
        behind = p;
      })
