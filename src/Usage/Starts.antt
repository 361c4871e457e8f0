-- ===== src/Usage/Starts.antt =====
-- The set-up of the zone of src/usage_metrics.rs leaves a table that keeps the invariant.
use ngx_http_crowdsec_module.Base.{
  ℕ, ◌<◌, ◌≡◌, refl, ap, subst, Bool, Option, none, some, arith, replicate, get_or-replicate,
  length-replicate,
}
use ngx_http_crowdsec_module.Usage.{UsageBucket, UsageMetrics, max_buckets, zeroed}
use ngx_http_crowdsec_module.Usage.Counts.{IsValid}
use ngx_http_crowdsec_module.Usage.Reports.{IsTable}
use ngx_http_crowdsec_module.Usage.Push.{fresh, usage_metrics_zone_init, ok}

pub zeroed-IsValid : (n : ℕ) → 0 < n → IsValid n (replicate n zeroed)
zeroed-IsValid n h = record {
  sized = length-replicate n zeroed;
  has_bucket = h;
  in_range = λ i l. rw (get_or-replicate n i zeroed) (omega arith);
  unused = λ i l e. rw (get_or-replicate n i zeroed) refl;
  used = λ i l u. absurd (u (ap (λ (b : UsageBucket). b.key_hash) (get_or-replicate n i zeroed)));
}

-- The set-up of the zone, on a start and on a reload, leaves a table that keeps the invariant.
pub usage_metrics_zone_init-IsTable :
    {Pool : Type 0} (has_room : Pool → ℕ → Bool) (old : Option UsageMetrics) (pool : Option Pool)
    (m : UsageMetrics)
    → ((m' : UsageMetrics) → old ≡ some m' → IsValid m'.bucket_count m'.buckets)
    → usage_metrics_zone_init has_room old pool ≡ ok (some m)
    → IsTable m
unfolding usage_metrics_zone_init
usage_metrics_zone_init-IsTable has_room (some m') pool m kept e =
    let same : m' ≡ m = ground arith in
    subst IsTable same
      (record { magic = ground arith; version = ground arith; valid = kept m' refl })
usage_metrics_zone_init-IsTable has_room none none m kept e = absurd (ground arith)
usage_metrics_zone_init-IsTable has_room none (some p) m kept e =
    let same : fresh ≡ m = ground arith in
    subst IsTable same
      (record { magic = refl; version = refl; valid = zeroed-IsValid max_buckets (omega arith) })
