-- ===== src/Tests/Usage.antt =====
-- The theorems on the usage metrics and on the loop over a table, at a small table of counters.
use ngx_http_crowdsec_module.Base.{
  ℕ, ◌+◌, ◌≡◌, ◌<◌, refl, Option, none, some, List, [], ◌∷◌, ◌==◌, if◌then◌else◌, replicate, arith,
}
use ngx_http_crowdsec_module.Base.Text.{codes}
use ngx_http_crowdsec_module.Base.Words.{u64_mod}
use ngx_http_crowdsec_module.Shm.Probe.{probe}
use ngx_http_crowdsec_module.Shm.Probe.Outcome.{probe_fuel}
use ngx_http_crowdsec_module.Shm.Scenario.{valid_utf8}
use ngx_http_crowdsec_module.Usage.{
  BucketKey, UsageBucket, UsageMetrics, from_labels, inc_buckets, kind_dropped,
  usage_layout_version, usage_magic, zeroed,
}
use ngx_http_crowdsec_module.Usage.Counts.{tally, IsValid}
use ngx_http_crowdsec_module.Usage.Items.{collect_items}
use ngx_http_crowdsec_module.Usage.Keys.{IsKey, from_labels-IsKey}
use ngx_http_crowdsec_module.Usage.Push.{Upload, push_to_lapi, status}
use ngx_http_crowdsec_module.Usage.Records.{Recorded, inc_buckets-Recorded}
use ngx_http_crowdsec_module.Usage.Reports.{IsCumulative, reported, IsTable, collect_items-tally}
use ngx_http_crowdsec_module.Usage.Settles.{Settled, push_to_lapi-Settled}
use ngx_http_crowdsec_module.Usage.Meanwhile.{Fits}
use ngx_http_crowdsec_module.Usage.Starts.{zeroed-IsValid}

abbrev dropped : BucketKey
dropped = from_labels kind_dropped 4 (codes "crowdsec")

dropped-IsKey : IsKey dropped
unfolding valid_utf8
dropped-IsKey = from_labels-IsKey kind_dropped 4 (codes "crowdsec") (refl, omega arith)

abbrev empty_table : List UsageBucket
empty_table = replicate 4 zeroed

empty_room : tally dropped empty_table + 5 < u64_mod
unfolding tally
empty_room = omega arith

inc_buckets-Recorded_example :
    IsValid 4 (inc_buckets dropped 5 4 empty_table)
    × Recorded 4 empty_table dropped 5 (inc_buckets dropped 5 4 empty_table)
inc_buckets-Recorded_example =
    inc_buckets-Recorded dropped 5 dropped-IsKey (zeroed-IsValid 4 (omega arith)) empty_room

-- Five requests were dropped.
abbrev metrics : UsageMetrics
metrics = record {
  magic = usage_magic;
  layout_version = usage_layout_version;
  startup_unix_secs = 500;
  last_push_unix_secs = 0;
  bucket_count = 4;
  buckets = inc_buckets dropped 5 4 empty_table;
}

metrics-IsTable : IsTable metrics
metrics-IsTable = record {
  magic = refl;
  version = refl;
  valid =
      (inc_buckets-Recorded dropped 5 dropped-IsKey (zeroed-IsValid 4 (omega arith)) empty_room).0;
}

dropped-IsCumulative : IsCumulative dropped
unfolding from_labels
dropped-IsCumulative e = absurd (omega arith)

collect_items-tally_example :
    reported dropped (collect_items none 1000 (some metrics)) ≡ tally dropped metrics.buckets
collect_items-tally_example =
    collect_items-tally none 1000 metrics dropped metrics-IsTable dropped-IsCumulative

-- The LAPI takes the report; one more request is dropped before it answers.
abbrev upload : Upload
upload = record {
  now = 1000;
  os_release = none;
  agent = λ url payload. status 201;
  meanwhile = (dropped, 1) ∷ [];
}

upload-Fits : Fits upload.meanwhile 4 metrics.buckets
unfolding tally inc_buckets from_labels
upload-Fits = (dropped-IsKey, omega arith, tt)

push_to_lapi-Settled_example :
    Settled upload 60 metrics
      (push_to_lapi upload (codes "http://127.0.0.1:8080/") 60 none (some metrics))
push_to_lapi-Settled_example =
    push_to_lapi-Settled upload (codes "http://127.0.0.1:8080/") 60 none metrics metrics-IsTable
      upload-Fits

-- A body that returns at the slot 3.
abbrev at_three : ℕ → Option ℕ
at_three idx = if idx == 3 then some idx else none

probe_fuel_example : probe 0 4 1 at_three (λ idx. 9) 7 1 ≡ probe 8 4 1 at_three (λ idx. 9) 4 1
probe_fuel_example = probe_fuel 4 1 at_three (λ idx. 9) 0 8 7 (omega arith) (omega arith)
