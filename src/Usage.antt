-- ===== src/Usage.antt =====
-- src/usage_metrics.rs: the keys of the counters, the labels, and the shared table of buckets with the
-- functions that count. A call runs without another between its steps, so that the wait for a bucket
-- that is being written never takes a turn, and a `compare_exchange` on a bucket seen free succeeds.
pub mod Keys
pub mod Items
pub mod Push
pub mod Counts
pub mod Values
pub mod Claims
pub mod Records
pub mod Drains
pub mod Reports
pub mod Settles
pub mod Meanwhile
pub mod Starts
use ngx_http_crowdsec_module.Base.{
  ℕ, zero, suc, ◌+◌, ◌-◌, ◌*◌, ◌%◌, Bool, true, false, not, ◌&&◌, ◌||◌, Option, none, some, List,
  [], ◌∷◌, ◌++◌, min, ltb, ◌==◌, if◌then◌else◌, length, get_or, set, take, replicate, bytes_eq,
}
use ngx_http_crowdsec_module.Base.Text.{Text, codes}
use ngx_http_crowdsec_module.Base.Words.{u32_mod, u64_mod}
use ngx_http_crowdsec_module.Net.{IpAddr, v4, v6}
use ngx_http_crowdsec_module.Origin
use ngx_http_crowdsec_module.Origin.{Origin}
use ngx_http_crowdsec_module.Shm.Counters.{OriginCount, count_active_decisions_by_origin}
use ngx_http_crowdsec_module.Shm.Hash.{fnv_byte, fnv_bytes, not_reserved}
use ngx_http_crowdsec_module.Shm.Probe.{probe}
use ngx_http_crowdsec_module.Shm.Scenario.{max_scenario_len, valid_utf8}
use ngx_http_crowdsec_module.Shm.State.{ShmData, get_scenario}

abbrev pub max_buckets : ℕ
max_buckets = 512

-- `6 + MAX_SCENARIO_LEN`
abbrev pub origin_max : ℕ
origin_max = 133

abbrev pub kind_processed : ℕ
kind_processed = 1

abbrev pub kind_dropped : ℕ
kind_dropped = 2

abbrev pub kind_active : ℕ
kind_active = 3

-- `CsU1`, read as a little-endian word.
abbrev pub usage_magic : ℕ
usage_magic = 827683651

abbrev pub usage_layout_version : ℕ
usage_layout_version = 1

-- The bytes of the origin are padded to `ORIGIN_MAX`.
pub record BucketKey : Type 0 where
  pub kind : ℕ
  pub ip_type : ℕ
  pub origin : List ℕ
  pub origin_len : ℕ

pub record UsageBucket : Type 0 where
  pub key_hash : ℕ
  pub value : ℕ
  pub kind : ℕ
  pub ip_type : ℕ
  pub origin_len : ℕ
  pub ready : ℕ
  pub origin : List ℕ

-- `UsageMetricsHeader` with the buckets that stand behind it.
pub record UsageMetrics : Type 0 where
  pub magic : ℕ
  pub layout_version : ℕ
  pub startup_unix_secs : ℕ
  pub last_push_unix_secs : ℕ
  pub bucket_count : ℕ
  pub buckets : List UsageBucket

abbrev pub zeroed : UsageBucket
zeroed = record {
  key_hash = 0;
  value = 0;
  kind = 0;
  ip_type = 0;
  origin_len = 0;
  ready = 0;
  origin = replicate origin_max 0;
}

abbrev pub key_of : UsageBucket → BucketKey
key_of b = record {
  kind = b.kind;
  ip_type = b.ip_type;
  origin = b.origin;
  origin_len = b.origin_len;
}

unfoldable pub hash : BucketKey → ℕ
unfolding fnv_byte fnv_bytes
hash k =
    not_reserved
      (fnv_bytes (fnv_byte (fnv_byte 2166136261 k.kind) k.ip_type) (take k.origin_len k.origin))

-- The label is given by its bytes.
unfoldable pub from_labels : ℕ → ℕ → List ℕ → BucketKey
from_labels kind ip_type origin =
    let len = min (length origin) origin_max in
    record {
      kind = kind;
      ip_type = ip_type;
      origin = take len origin ++ replicate (origin_max - len) 0;
      origin_len = len % 256;
    }

unfoldable pub ip_type_byte : IpAddr → ℕ
ip_type_byte (v4 _) = 4
ip_type_byte (v6 _) = 6

unfoldable pub ip_type_label : ℕ → Text
ip_type_label ip_type = if ip_type == 6 then codes "ipv6" else codes "ipv4"

abbrev is_lists : Origin → Bool
is_lists Origin.lists = true
is_lists _ = false

-- Every label of an origin is ASCII, so that its characters are its bytes.
unfoldable pub origin_label : Option ShmData → Origin → ℕ → List ℕ
unfolding Origin.metrics_label get_scenario
origin_label store origin scenario_id =
    if is_lists origin
    then elim (get_scenario store scenario_id) [
      | some scenario ↦ codes "lists:" ++ scenario
      | none ↦ codes "lists"
    ]
    else Origin.metrics_label origin

-- The zone's data, where it is this module's.
unfoldable pub header_ptr : Option UsageMetrics → Option UsageMetrics
header_ptr none = none
header_ptr (some m) =
    if not (m.magic == usage_magic) || not (m.layout_version == usage_layout_version)
    then none
    else some m

-- The bucket holds the key, by the test of `bucket_inc`.
unfoldable pub holds : UsageBucket → BucketKey → Bool
unfolding bytes_eq
holds b key =
    not (b.ready == 0)
    && b.kind == key.kind
    && b.ip_type == key.ip_type
    && b.origin_len == key.origin_len
    && bytes_eq (take key.origin_len b.origin) (take key.origin_len key.origin)

abbrev pub claimed : BucketKey → ℕ → UsageBucket
claimed key delta = record {
  key_hash = hash key;
  value = delta;
  kind = key.kind;
  ip_type = key.ip_type;
  origin_len = key.origin_len;
  ready = 1;
  origin = key.origin;
}

abbrev pub raised : UsageBucket → ℕ → UsageBucket
raised b delta = record b { value = (b.value + delta) % u64_mod }

-- One round of the loop of `bucket_inc`: the buckets after it, where it returns.
unfoldable pub inc_at : BucketKey → ℕ → List UsageBucket → ℕ → Option (List UsageBucket)
unfolding hash holds
inc_at key delta buckets idx =
    let b = get_or buckets idx zeroed in
    if b.key_hash == hash key && holds b key
    then some (set buckets idx (raised b delta))
    else if b.key_hash == 0
    then some (set buckets idx (claimed key delta))
    else none

-- In a full table without the key nothing is counted.
unfoldable pub inc_buckets : BucketKey → ℕ → ℕ → List UsageBucket → List UsageBucket
unfolding inc_at hash probe
inc_buckets key delta count buckets =
    probe buckets count (hash key % count) (inc_at key delta buckets) (λ _. buckets) count
      (hash key % count)

abbrev pub on_header : (UsageMetrics → UsageMetrics) → Option UsageMetrics → Option UsageMetrics
on_header f zone = elim (header_ptr zone) [ none ↦ zone | some m ↦ some (f m) ]

unfoldable pub bucket_inc : BucketKey → ℕ → Option UsageMetrics → Option UsageMetrics
unfolding inc_buckets header_ptr
bucket_inc key delta zone =
    on_header (λ m. record m { buckets = inc_buckets key delta m.bucket_count m.buckets }) zone

unfoldable pub record_processed : IpAddr → Option UsageMetrics → Option UsageMetrics
unfolding bucket_inc from_labels ip_type_byte
record_processed ip zone = bucket_inc (from_labels kind_processed (ip_type_byte ip) []) 1 zone

unfoldable pub record_dropped :
    Option ShmData → IpAddr → Origin → ℕ → Option UsageMetrics → Option UsageMetrics
unfolding bucket_inc from_labels ip_type_byte origin_label
record_dropped store ip origin scenario_id zone =
    bucket_inc (from_labels kind_dropped (ip_type_byte ip) (origin_label store origin scenario_id))
      1 zone

unfoldable pub record_appsec_dropped : IpAddr → Option UsageMetrics → Option UsageMetrics
unfolding bucket_inc from_labels ip_type_byte
record_appsec_dropped ip zone =
    bucket_inc (from_labels kind_dropped (ip_type_byte ip) (codes "appsec")) 1 zone

-- Only the first start is kept.
unfoldable pub record_startup : ℕ → Option UsageMetrics → Option UsageMetrics
unfolding header_ptr
record_startup now zone =
    on_header (λ m. if m.startup_unix_secs == 0 then record m { startup_unix_secs = now } else m)
      zone
