-- ===== src/Shm/Metrics/Tally.antt =====
-- What the counters show after any run of the functions that step them.
use ngx_http_crowdsec_module.Base.Words.{u64_mod}
use ngx_http_crowdsec_module.Base.{
  ℕ, ◌+◌, ◌%◌, ◌<◌, ◌≡◌, Bool, true, false, Option, some, List, [], ◌∷◌, if◌then◌else◌, arith,
  count,
}
use ngx_http_crowdsec_module.Shm.Metrics
use ngx_http_crowdsec_module.Shm.Metrics.{
  MetricsShm, MetricsEvent, http_lookup, http_ban, lapi_poll_ok, step, metrics_inc, zero_counters,
  fetch_add, metrics_prometheus_snapshot,
}
use ngx_http_crowdsec_module.Shm.State.{ShmData}

unfoldable pub run : List MetricsEvent → Option MetricsShm → Option MetricsShm
run [] m = m
run (e ∷ es) m = run es (metrics_inc e m)

pub data Counter : Type 0 where
  lookups bans captchas bypasses polls failed_polls requests blocks errors : Counter

abbrev pub counts : Counter → MetricsEvent → Bool
counts Counter.lookups http_lookup = true
counts Counter.bans http_ban = true
counts Counter.captchas MetricsEvent.http_captcha = true
counts Counter.bypasses MetricsEvent.http_bypass = true
counts Counter.polls (lapi_poll_ok now) = true
counts Counter.failed_polls MetricsEvent.lapi_poll_err = true
counts Counter.requests MetricsEvent.appsec_request = true
counts Counter.blocks MetricsEvent.appsec_block = true
counts Counter.errors MetricsEvent.appsec_error = true
counts _ _ = false

abbrev pub value : Counter → Metrics.MetricsSnapshot → ℕ
value Counter.lookups m = m.http_lookups
value Counter.bans m = m.http_bans
value Counter.captchas m = m.http_captcha
value Counter.bypasses m = m.http_bypass
value Counter.polls m = m.lapi_poll_ok
value Counter.failed_polls m = m.lapi_poll_err
value Counter.requests m = m.appsec_requests
value Counter.blocks m = m.appsec_blocks
value Counter.errors m = m.appsec_errors

value-step :
    (c : Counter) (e : MetricsEvent) (m : MetricsShm) (store : Option ShmData) (now : ℕ)
    → value c (metrics_prometheus_snapshot (some (step e m)) store now) ≡ (
        if counts c e
        then fetch_add (value c (metrics_prometheus_snapshot (some m) store now))
        else value c (metrics_prometheus_snapshot (some m) store now))
unfolding metrics_prometheus_snapshot step
value-step Counter.lookups e m store now = ground arith
value-step Counter.bans e m store now = ground arith
value-step Counter.captchas e m store now = ground arith
value-step Counter.bypasses e m store now = ground arith
value-step Counter.polls e m store now = ground arith
value-step Counter.failed_polls e m store now = ground arith
value-step Counter.requests e m store now = ground arith
value-step Counter.blocks e m store now = ground arith
value-step Counter.errors e m store now = ground arith

-- From a counter that fits into 64 bits, after any sequence of increments the snapshot shows for
-- each counter what it showed before plus the calls that step it, modulo 2^64.
pub metrics_prometheus_snapshot-run :
    (c : Counter) (es : List MetricsEvent) (m : MetricsShm) (store : Option ShmData) (now : ℕ)
    → value c (metrics_prometheus_snapshot (some m) store now) < u64_mod
    → value c (metrics_prometheus_snapshot (run es (some m)) store now)
      ≡ (value c (metrics_prometheus_snapshot (some m) store now) + count (counts c) es) % u64_mod
unfolding run metrics_inc
metrics_prometheus_snapshot-run c [] m store now h = omega arith
metrics_prometheus_snapshot-run c (e ∷ es) m store now h =
    let s = value-step c e m store now in
    ground (arith, s, metrics_prometheus_snapshot-run c es (step e m) store now)
