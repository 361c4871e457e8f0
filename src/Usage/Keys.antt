-- ===== src/Usage/Keys.antt =====
-- The keys of the counters: what a bucket stores gives the key back, and the tests of the loops decide
-- the equality of keys.
use ngx_http_crowdsec_module.Base.{
  ℕ, zero, suc, ◌-◌, ◌%◌, ◌≤◌, ◌≡◌, ◌≢◌, ◌↔◌, refl, sym, ap, ◌∙◌, true, List, [], ◌∷◌, ◌++◌, min,
  length, take, replicate, bytes_eq_iff, take-take-append, arith,
}
use ngx_http_crowdsec_module.Shm.Scenario.{valid_utf8}
use ngx_http_crowdsec_module.Usage.{
  BucketKey, UsageBucket, hash, from_labels, holds, key_of, origin_max,
}
use ngx_http_crowdsec_module.Usage.Items.{text_of, is_bucket_of, key_eq}

-- The key that `collect_items` builds of a stored one.
unfoldable pub relabelled : BucketKey → BucketKey
unfolding text_of from_labels
relabelled k = from_labels k.kind k.ip_type (text_of k.origin_len k.origin)

abbrev pub IsKey : BucketKey → Type 0
IsKey k = relabelled k ≡ k

pub take-all {ℓ} : {A : Type ℓ} (n : ℕ) (xs : List A) → length xs ≤ n → take n xs ≡ xs
take-all zero [] h = refl
take-all zero (x ∷ xs) h = absurd (omega arith)
take-all (suc n) [] h = refl
take-all (suc n) (x ∷ xs) h = ap (◌∷◌ x) (take-all n xs (omega arith))

-- A label that fits.
abbrev pub IsLabel : List ℕ → Type 0
IsLabel label = (valid_utf8 label ≡ true) × (length label ≤ origin_max)

from_labels-fits :
    (kind ip_type : ℕ) (label : List ℕ)
    → length label ≤ origin_max
    → from_labels kind ip_type label ≡ (record {
      kind = kind;
      ip_type = ip_type;
      origin = label ++ replicate (origin_max - length label) 0;
      origin_len = length label;
    })
unfolding from_labels
from_labels-fits kind ip_type label h =
    let e : min (length label) origin_max ≡ length label = omega arith in
    let m : length label % 256 ≡ length label = omega arith in
    rw (e, m, take-all (length label) label (omega arith)) refl

pub from_labels-IsKey :
    (kind ip_type : ℕ) (label : List ℕ) → IsLabel label → IsKey (from_labels kind ip_type label)
unfolding relabelled
from_labels-IsKey kind ip_type label (v, h) =
    ap relabelled (from_labels-fits kind ip_type label h) ∙ ap (from_labels kind ip_type) text-back
  where
    text-back : text_of (length label) (label ++ replicate (origin_max - length label) 0) ≡ label
    text-back =
        rw
          (
            text_of,
            take-take-append label (replicate (origin_max - length label) 0) (length label) refl,
            v,
          )
          refl

-- Keys with the same labels are the same.
IsKey-eq :
    (a b : BucketKey)
    → IsKey a
    → IsKey b
    → a.kind ≡ b.kind
    → a.ip_type ≡ b.ip_type
    → a.origin_len ≡ b.origin_len
    → take a.origin_len a.origin ≡ take b.origin_len b.origin
    → a ≡ b
unfolding relabelled text_of
IsKey-eq a b ka kb e f g h = sym ka ∙ (rw (e, f, h) refl) ∙ kb

pub hash-ne-zero : (k : BucketKey) → hash k ≢ 0
unfolding hash
hash-ne-zero k e = absurd (ground arith)

module _ (b : UsageBucket) (k : BucketKey) where
  pub holds-eq : IsKey (key_of b) → IsKey k → holds b k ≡ true → key_of b ≡ k
  unfolding holds
  holds-eq kb kk h =
      let l : b.origin_len ≡ k.origin_len = ground arith in
      let p : take k.origin_len b.origin ≡ take k.origin_len k.origin =
        (bytes_eq_iff _ _).0 (ground arith) in
      IsKey-eq (key_of b) k kb kk (ground arith) (ground arith) l
        (ap (λ (n : ℕ). take n b.origin) l ∙ p)

  pub holds_key : b.ready ≢ 0 → key_of b ≡ k → holds b k ≡ true
  unfolding holds
  holds_key r e = ground (
    arith,
    (bytes_eq_iff (take k.origin_len b.origin) (take k.origin_len k.origin)).1
        (ap (λ (t : BucketKey). take k.origin_len t.origin) e),
    ap (λ (t : BucketKey). t.kind) e,
    ap (λ (t : BucketKey). t.ip_type) e,
    ap (λ (t : BucketKey). t.origin_len) e,
  )

  pub is_bucket_of_iff :
      (is_bucket_of k b ≡ true) ↔ ((b.key_hash ≡ hash k) × (b.ready ≢ 0) × (key_of b ≡ k))
  unfolding is_bucket_of
  is_bucket_of_iff = ground (arith, bytes_eq_iff b.origin k.origin)

pub key_eq_iff : (a b : BucketKey) → (key_eq a b ≡ true) ↔ (a ≡ b)
unfolding key_eq
key_eq_iff a b = ground (arith, bytes_eq_iff a.origin b.origin)
