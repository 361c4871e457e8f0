-- ===== src/Usage/Push.antt =====
-- src/usage_metrics.rs: the payload, `push_to_lapi`, `flush_on_shutdown` and the set-up of the zone. The
-- answer of the LAPI, the clock, the text of /etc/os-release and what is counted while the upload is in
-- flight are inputs; the payload is the structure that is serialized.
use ngx_http_crowdsec_module.Base.{
  ℕ, ◌+◌, ◌-◌, ◌*◌, Bool, ◌&&◌, Option, none, some, List, [], ◌∷◌, ◌++◌, max, ltb, leb, ◌==◌,
  if◌then◌else◌, drop, replicate, length, all, filter_map,
}
use ngx_http_crowdsec_module.Base.Text.{Text, codes, trim_end_matches, starts_with, split}
use ngx_http_crowdsec_module.Shm.State.{ShmData}
use ngx_http_crowdsec_module.Usage.{
  UsageMetrics, zeroed, ip_type_label, header_ptr, on_header, bucket_inc, kind_processed,
  kind_dropped, kind_active, max_buckets, usage_magic, usage_layout_version,
}
use ngx_http_crowdsec_module.Usage.Items.{Item, text_of, collect_items, reset_after_push}

pub record MetricItem : Type 0 where
  pub name : Text
  pub value : ℕ
  pub unit : Text
  pub labels : List (Text × Text)

unfoldable pub metric_item : Item → Option MetricItem
unfolding ip_type_label text_of
metric_item (key, value) =
    let ip_label : Text × Text = (codes "ip_type", ip_type_label key.ip_type) in
    let origin : Text × Text = (codes "origin", text_of key.origin_len key.origin) in
    if key.kind == kind_processed
    then some (record {
      name = codes "processed";
      value = value;
      unit = codes "request";
      labels = ip_label ∷ [];
    })
    else if key.kind == kind_dropped
    then some (record {
      name = codes "dropped";
      value = value;
      unit = codes "request";
      labels = ip_label ∷ origin ∷ [];
    })
    else if key.kind == kind_active
    then some (record {
      name = codes "active_decisions";
      value = value;
      unit = codes "ip";
      labels = ip_label ∷ origin ∷ [];
    })
    else none

-- The parts of the payload that are not constant.
pub record Payload : Type 0 where
  pub utc_startup_timestamp : ℕ
  pub os_name : Text
  pub os_version : Text
  pub window_size_seconds : ℕ
  pub utc_now_timestamp : ℕ
  pub items : List MetricItem

unfoldable pub build_payload : List Item → ℕ → ℕ → ℕ → Text × Text → Payload
unfolding metric_item
build_payload items window_secs now startup (os_name, os_version) = record {
  utc_startup_timestamp = startup;
  os_name = os_name;
  os_version = os_version;
  window_size_seconds = window_secs;
  utc_now_timestamp = now;
  items = filter_map metric_item items;
}

-- A line without the `\r` that ends it.
abbrev chomp : Text → Text
chomp [] = []
chomp (c ∷ []) = if c == 13 then [] else c ∷ []
chomp (c ∷ d ∷ s) = c ∷ chomp (d ∷ s)

-- `str::lines`: the piece behind a last newline is no line if it is empty.
abbrev lines_of : List Text → List Text
lines_of [] = []
lines_of (t ∷ []) = if length t == 0 then [] else t ∷ []
lines_of (t ∷ u ∷ ts) = chomp t ∷ lines_of (u ∷ ts)

abbrev drop_quotes : Text → Text
drop_quotes [] = []
drop_quotes (c ∷ s) = if c == 34 then drop_quotes s else c ∷ s

unfoldable pub trim_quotes : Text → Text
unfolding trim_end_matches
trim_quotes s = trim_end_matches 34 (drop_quotes s)

abbrev os_line : Text × Text → Text → Text × Text
os_line (name, version) line =
    if starts_with (codes "NAME=") line
    then (trim_quotes (drop 5 line), version)
    else if starts_with (codes "VERSION_ID=") line
    then (name, trim_quotes (drop 11 line))
    else (name, version)

abbrev os_lines : List Text → Text × Text → Text × Text
os_lines [] os = os
os_lines (l ∷ ls) os = os_lines ls (os_line os l)

abbrev content_of : Option Text → Text
content_of none = []
content_of (some t) = t

unfoldable pub read_os_info : Option Text → Text × Text
unfolding split starts_with trim_quotes
read_os_info content =
    let (name, version) = os_lines (lines_of (split 10 (content_of content))) (codes "linux", []) in
    (name, if length version == 0 then codes "unknown" else version)

-- What the agent makes of a request: a status below 400, or an error that it reports.
pub data Answer : Type 0 where
  status : ℕ → Answer
  failed : Text → Answer

pub record Upload : Type 0 where
  pub now : ℕ
  pub os_release : Option Text
  pub agent : Text → Payload → Answer
  pub meanwhile : List Item

pub data Pushed : Type 0 where
  pushed : Pushed
  not_sent : Text → Pushed
  bad_status : ℕ → Pushed

unfoldable pub record_all : List Item → Option UsageMetrics → Option UsageMetrics
unfolding bucket_inc
record_all [] zone = zone
record_all ((key, delta) ∷ incs) zone = record_all incs (bucket_inc key delta zone)

abbrev pub set_last_push : ℕ → Option UsageMetrics → Option UsageMetrics
set_last_push now zone = on_header (λ m. record m { last_push_unix_secs = now }) zone

abbrev pub on_answer : ℕ → List Item → Answer → Option UsageMetrics → Option UsageMetrics × Pushed
on_answer now items (failed e) zone = (zone, not_sent e)
on_answer now items (status n) zone =
    if leb 200 n && ltb n 300
    then (set_last_push now (reset_after_push items zone), pushed)
    else (zone, bad_status n)

abbrev pub window_of : ℕ → ℕ → ℕ → ℕ
window_of window_secs last_push now =
    if last_push == 0 then window_secs else max (now - last_push) 1

abbrev pub uploaded : Upload → Text → ℕ → UsageMetrics → List Item → Answer
uploaded u lapi_url window_secs m items =
    u.agent (trim_end_matches 47 lapi_url ++ codes "/v1/usage-metrics") (
      build_payload items (window_of window_secs m.last_push_unix_secs u.now) u.now
        m.startup_unix_secs (read_os_info u.os_release))

abbrev pub send_items :
    Upload
    → Text
    → ℕ
    → UsageMetrics
    → List Item
    → Option UsageMetrics
    → Option UsageMetrics × Pushed
send_items u lapi_url window_secs m items zone =
    if all (λ (i : Item). i.1 == 0) items
    then (zone, pushed)
    else on_answer u.now items (uploaded u lapi_url window_secs m items)
        (record_all u.meanwhile zone)

unfoldable pub push_to_lapi :
    Upload → Text → ℕ → Option ShmData → Option UsageMetrics → Option UsageMetrics × Pushed
unfolding collect_items reset_after_push record_all build_payload read_os_info header_ptr
    trim_end_matches
push_to_lapi u lapi_url window_secs store zone =
    if window_secs == 0 then (zone, pushed) else elim (header_ptr zone) [
      | none ↦ (zone, pushed)
      | some m ↦ send_items u lapi_url window_secs m (collect_items store u.now zone) zone
    ]

unfoldable pub flush_on_shutdown :
    Upload → Text → ℕ → Option ShmData → Option UsageMetrics → Option UsageMetrics
unfolding push_to_lapi
flush_on_shutdown u lapi_url interval_secs store zone =
    if interval_secs == 0 then zone else (push_to_lapi u lapi_url interval_secs store zone).0

-- What `usage_metrics_zone_init` leaves: `NGX_ERROR`, or `NGX_OK` with or without a table.
pub data InitResult : Type 0 where
  error : InitResult
  ok : Option UsageMetrics → InitResult

abbrev pub fresh : UsageMetrics
fresh = record {
  magic = usage_magic;
  layout_version = usage_layout_version;
  startup_unix_secs = 0;
  last_push_unix_secs = 0;
  bucket_count = max_buckets;
  buckets = replicate max_buckets zeroed;
}

-- `size_of::<UsageMetricsHeader>() + size_of::<UsageBucket>() * MAX_BUCKETS`
abbrev usage_size : ℕ
usage_size = 32 + 160 * max_buckets

-- The data from before, if any; the pool, if there is one; and whether it has room for so many bytes.
unfoldable pub usage_metrics_zone_init :
    {Pool : Type 0} → (Pool → ℕ → Bool) → Option UsageMetrics → Option Pool → InitResult
usage_metrics_zone_init has_room (some old) pool =
    if old.magic == usage_magic && old.layout_version == usage_layout_version
    then ok (some old)
    else error
usage_metrics_zone_init has_room none none = error
usage_metrics_zone_init has_room none (some pool) =
    if has_room pool usage_size then ok (some fresh) else ok none
