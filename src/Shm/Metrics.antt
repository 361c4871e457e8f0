-- ===== src/Shm/Metrics.antt =====
-- src/shm.rs: `MetricsShm`, the counters that the workers share, with the functions that step them,
-- `metrics_zone_init` and `metrics_prometheus_snapshot`. An atomic `fetch_add` is one step.
pub mod Tally
use ngx_http_crowdsec_module.Base.Words.{u64_mod}
use ngx_http_crowdsec_module.Base.{ℕ, ◌+◌, ◌%◌, Bool, ◌&&◌, Option, none, some, ◌==◌, if◌then◌else◌}
use ngx_http_crowdsec_module.Shm.Counters.{get_active_count, get_eviction_count}
use ngx_http_crowdsec_module.Shm.State.{ShmData}

pub record MetricsShm : Type 0 where
  pub magic : ℕ
  pub layout_version : ℕ
  pub http_lookups : ℕ
  pub http_bans : ℕ
  pub http_captcha : ℕ
  pub http_bypass : ℕ
  pub lapi_poll_ok : ℕ
  pub lapi_poll_err : ℕ
  pub lapi_last_success_unix_secs : ℕ
  pub appsec_requests : ℕ
  pub appsec_blocks : ℕ
  pub appsec_errors : ℕ

-- `CsM1`, read as a little-endian word.
abbrev pub metrics_magic : ℕ
metrics_magic = 827159363

abbrev pub metrics_layout_version : ℕ
metrics_layout_version = 2

abbrev pub metrics_size : ℕ
metrics_size = 88

abbrev pub zero_counters : MetricsShm
zero_counters = record {
  magic = metrics_magic;
  layout_version = metrics_layout_version;
  http_lookups = 0;
  http_bans = 0;
  http_captcha = 0;
  http_bypass = 0;
  lapi_poll_ok = 0;
  lapi_poll_err = 0;
  lapi_last_success_unix_secs = 0;
  appsec_requests = 0;
  appsec_blocks = 0;
  appsec_errors = 0;
}

-- What the callback leaves: `NGX_ERROR`, or `NGX_OK` with or without counters.
pub data InitResult : Type 0 where
  error : InitResult
  ok : Option MetricsShm → InitResult

-- The data from before, if any; the pool, if there is one; and whether it has room for so many bytes.
unfoldable pub metrics_zone_init :
    {Pool : Type 0} → (Pool → ℕ → Bool) → Option MetricsShm → Option Pool → InitResult
metrics_zone_init has_room (some old) pool =
    if old.magic == metrics_magic && old.layout_version == metrics_layout_version
    then ok (some old)
    else error
metrics_zone_init has_room none none = error
metrics_zone_init has_room none (some pool) =
    if has_room pool metrics_size then ok (some zero_counters) else ok none

-- The functions that step the counters; `lapi_poll_ok` comes with the second that the clock shows,
-- zero for a clock that is set before the epoch.
pub data MetricsEvent : Type 0 where
  http_lookup http_ban http_captcha http_bypass lapi_poll_err : MetricsEvent
  appsec_request appsec_block appsec_error : MetricsEvent
  lapi_poll_ok : ℕ → MetricsEvent

abbrev pub fetch_add : ℕ → ℕ
fetch_add c = (c + 1) % u64_mod

unfoldable pub step : MetricsEvent → MetricsShm → MetricsShm
step http_lookup m = record m { http_lookups = fetch_add m.http_lookups }
step http_ban m = record m { http_bans = fetch_add m.http_bans }
step http_captcha m = record m { http_captcha = fetch_add m.http_captcha }
step http_bypass m = record m { http_bypass = fetch_add m.http_bypass }
step (lapi_poll_ok now) m = record m {
  lapi_poll_ok = fetch_add m.lapi_poll_ok;
  lapi_last_success_unix_secs = now;
}
step lapi_poll_err m = record m { lapi_poll_err = fetch_add m.lapi_poll_err }
step appsec_request m = record m { appsec_requests = fetch_add m.appsec_requests }
step appsec_block m = record m { appsec_blocks = fetch_add m.appsec_blocks }
step appsec_error m = record m { appsec_errors = fetch_add m.appsec_errors }

-- Without counters nothing happens.
unfoldable pub metrics_inc : MetricsEvent → Option MetricsShm → Option MetricsShm
metrics_inc e none = none
metrics_inc e (some m) = some (step e m)

pub record MetricsSnapshot : Type 0 where
  pub http_lookups : ℕ
  pub http_bans : ℕ
  pub http_captcha : ℕ
  pub http_bypass : ℕ
  pub lapi_poll_ok : ℕ
  pub lapi_poll_err : ℕ
  pub lapi_last_ok_unix : ℕ
  pub cache_entries : ℕ
  pub cache_evictions : ℕ
  pub appsec_requests : ℕ
  pub appsec_blocks : ℕ
  pub appsec_errors : ℕ

unfoldable pub metrics_prometheus_snapshot :
    Option MetricsShm → Option ShmData → ℕ → MetricsSnapshot
metrics_prometheus_snapshot none store now = record {
  http_lookups = 0;
  http_bans = 0;
  http_captcha = 0;
  http_bypass = 0;
  lapi_poll_ok = 0;
  lapi_poll_err = 0;
  lapi_last_ok_unix = 0;
  cache_entries = get_active_count store now;
  cache_evictions = get_eviction_count store;
  appsec_requests = 0;
  appsec_blocks = 0;
  appsec_errors = 0;
}
metrics_prometheus_snapshot (some m) store now = record {
  http_lookups = m.http_lookups;
  http_bans = m.http_bans;
  http_captcha = m.http_captcha;
  http_bypass = m.http_bypass;
  lapi_poll_ok = m.lapi_poll_ok;
  lapi_poll_err = m.lapi_poll_err;
  lapi_last_ok_unix = m.lapi_last_success_unix_secs;
  cache_entries = get_active_count store now;
  cache_evictions = get_eviction_count store;
  appsec_requests = m.appsec_requests;
  appsec_blocks = m.appsec_blocks;
  appsec_errors = m.appsec_errors;
}
