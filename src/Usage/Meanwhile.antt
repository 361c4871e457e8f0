-- ===== src/Usage/Meanwhile.antt =====
-- What is counted while a push of the usage metrics waits for its answer, and what the steps of the push
-- do to a table that keeps the invariant.
use ngx_http_crowdsec_module.Base.{
  ℕ, ◌+◌, ◌≤◌, ◌<◌, ◌≡◌, refl, ap, ◌∙◌, inl, inr, some, List, [], ◌∷◌, arith,
}
use ngx_http_crowdsec_module.Base.Words.{u64_mod}
use ngx_http_crowdsec_module.Usage.{
  BucketKey, UsageBucket, UsageMetrics, header_ptr, inc_buckets, bucket_inc,
}
use ngx_http_crowdsec_module.Usage.Items.{Item, reset_items, reset_after_push}
use ngx_http_crowdsec_module.Usage.Keys.{IsKey}
use ngx_http_crowdsec_module.Usage.Counts.{tally, IsValid}
use ngx_http_crowdsec_module.Usage.Records.{inc_buckets-Recorded}
use ngx_http_crowdsec_module.Usage.Reports.{IsTable}
use ngx_http_crowdsec_module.Usage.Push.{record_all, set_last_push}

-- What the other workers count, on the buckets alone.
abbrev pub inc_all : List Item → ℕ → List UsageBucket → List UsageBucket
inc_all [] count bs = bs
inc_all ((key, delta) ∷ incs) count bs = inc_all incs count (inc_buckets key delta count bs)

-- Their keys come from labels, and no count overflows.
abbrev pub Fits : List Item → ℕ → List UsageBucket → Type 0
Fits [] count bs = Unit
Fits ((key, delta) ∷ incs) count bs =
    IsKey key × (tally key bs + delta < u64_mod) × Fits incs count (inc_buckets key delta count bs)

pub inc_all-grows :
    (incs : List Item) (count : ℕ) (bs : List UsageBucket)
    → IsValid count bs
    → Fits incs count bs
    → IsValid count (inc_all incs count bs)
      × ((k : BucketKey) → tally k bs ≤ tally k (inc_all incs count bs))
inc_all-grows [] count bs v f = (v, λ k. omega arith)
inc_all-grows ((key, delta) ∷ incs) count bs v (is_key, small, f) =
    let (valid, recorded) = inc_buckets-Recorded key delta is_key v small in
    let (valid', more) = inc_all-grows incs count (inc_buckets key delta count bs) valid f in
    (
      valid',
      λ k. elim recorded [
        | inl (same, _) ↦ omega (arith, more k, ap (tally k) same)
        | inr counts ↦ omega (arith, more k, counts k)
      ],
    )

abbrev pub with_buckets : UsageMetrics → List UsageBucket → UsageMetrics
with_buckets m bs = record m { buckets = bs }

pub with_buckets-IsTable :
    (m : UsageMetrics) (bs : List UsageBucket)
    → IsTable m
    → IsValid m.bucket_count bs
    → IsTable (with_buckets m bs)
with_buckets-IsTable m bs t v = record { magic = t.magic; version = t.version; valid = v }

bucket_inc-some :
    (key : BucketKey) (delta : ℕ) (m : UsageMetrics)
    → IsTable m
    → bucket_inc key delta (some m)
      ≡ some (with_buckets m (inc_buckets key delta m.bucket_count m.buckets))
unfolding bucket_inc
bucket_inc-some key delta m t = ground (arith, t.magic, t.version)

pub record_all-some :
    (incs : List Item) (m : UsageMetrics)
    → IsTable m
    → Fits incs m.bucket_count m.buckets
    → record_all incs (some m) ≡ some (with_buckets m (inc_all incs m.bucket_count m.buckets))
unfolding record_all
record_all-some [] m t f = refl
record_all-some ((key, delta) ∷ incs) m t (is_key, small, f) =
    let (valid, _) = inc_buckets-Recorded key delta is_key t.valid small in
    let m' = with_buckets m (inc_buckets key delta m.bucket_count m.buckets) in
    ap (record_all incs) (bucket_inc-some key delta m t)
    ∙ record_all-some incs m' (with_buckets-IsTable m _ t valid) f

pub reset_after_push-some :
    (items : List Item) (m : UsageMetrics)
    → IsTable m
    → reset_after_push items (some m)
      ≡ some (with_buckets m (reset_items items m.bucket_count m.buckets))
unfolding reset_after_push
reset_after_push-some items m t = ground (arith, t.magic, t.version)

pub set_last_push-some :
    (now : ℕ) (m : UsageMetrics)
    → IsTable m
    → set_last_push now (some m) ≡ some (record m { last_push_unix_secs = now })
unfolding header_ptr
set_last_push-some now m t = ground (arith, t.magic, t.version)
