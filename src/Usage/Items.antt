-- ===== src/Usage/Items.antt =====
-- src/usage_metrics.rs: what `push_to_lapi` collects from the table, and how it takes off what was
-- reported. The order of the rows of a hash map is not specified: here it is that of their first
-- entries.
use ngx_http_crowdsec_module.Base.{
  ℕ, ◌+◌, ◌-◌, ◌%◌, Bool, not, ◌&&◌, ◌||◌, Option, none, some, List, [], ◌∷◌, ◌++◌, ◌==◌,
  if◌then◌else◌, get_or, set, take, bytes_eq, filter_map,
}
use ngx_http_crowdsec_module.Base.Words.{u64_mod}
use ngx_http_crowdsec_module.Shm.Counters.{OriginCount, count_active_decisions_by_origin}
use ngx_http_crowdsec_module.Shm.Probe.{probe}
use ngx_http_crowdsec_module.Shm.Scenario.{valid_utf8}
use ngx_http_crowdsec_module.Shm.State.{ShmData}
use ngx_http_crowdsec_module.Usage.{
  BucketKey, UsageBucket, UsageMetrics, zeroed, hash, from_labels, origin_label, header_ptr,
  on_header, kind_active,
}

-- `str::from_utf8(&origin[..len]).unwrap_or("")`
unfoldable pub text_of : ℕ → List ℕ → List ℕ
unfolding valid_utf8
text_of len origin = if valid_utf8 (take len origin) then take len origin else []

abbrev pub Item : Type 0
Item = BucketKey × ℕ

unfoldable pub item_of : UsageBucket → Option Item
unfolding text_of from_labels
item_of b =
    if b.key_hash == 0 || b.ready == 0
    then none
    else if b.value == 0
    then none
    else some (from_labels b.kind b.ip_type (text_of b.origin_len b.origin), b.value)

-- `PartialEq` of the keys.
unfoldable pub key_eq : BucketKey → BucketKey → Bool
unfolding bytes_eq
key_eq a b =
    a.kind == b.kind
    && a.ip_type == b.ip_type
    && bytes_eq a.origin b.origin
    && a.origin_len == b.origin_len

-- `*active.entry(key).or_insert(0) += count`
unfoldable pub add_entry : BucketKey → ℕ → List Item → List Item
unfolding key_eq
add_entry key n [] = (key, n) ∷ []
add_entry key n ((k, v) ∷ rows) =
    if key_eq k key then (k, (v + n) % u64_mod) ∷ rows else (k, v) ∷ add_entry key n rows

abbrev pub active_rows : Option ShmData → List OriginCount → List Item → List Item
active_rows store [] rows = rows
active_rows store (c ∷ cs) rows = active_rows store cs (
    add_entry (from_labels kind_active c.family (origin_label store c.origin c.scenario_id)) c.total
      rows)

unfoldable pub active_items : Option ShmData → ℕ → List Item
unfolding add_entry from_labels origin_label count_active_decisions_by_origin
active_items store now = active_rows store (count_active_decisions_by_origin store now) []

unfoldable pub collect_items : Option ShmData → ℕ → Option UsageMetrics → List Item
unfolding item_of header_ptr active_items
collect_items store now zone = elim (header_ptr zone) [
  | none ↦ []
  | some m ↦ filter_map item_of (take m.bucket_count m.buckets) ++ active_items store now
]

-- The bucket that `reset_after_push` looks for.
unfoldable pub is_bucket_of : BucketKey → UsageBucket → Bool
unfolding hash bytes_eq
is_bucket_of key b =
    b.key_hash == hash key
    && not (b.ready == 0)
    && b.kind == key.kind
    && b.ip_type == key.ip_type
    && b.origin_len == key.origin_len
    && bytes_eq b.origin key.origin

-- `fetch_sub`
abbrev pub lowered : UsageBucket → ℕ → UsageBucket
lowered b v = record b { value = (b.value + u64_mod - v) % u64_mod }

unfoldable pub reset_at : BucketKey → ℕ → List UsageBucket → ℕ → Option (List UsageBucket)
unfolding is_bucket_of
reset_at key v buckets idx =
    let b = get_or buckets idx zeroed in
    if is_bucket_of key b then some (set buckets idx (lowered b v)) else none

unfoldable pub reset_one : BucketKey → ℕ → ℕ → List UsageBucket → List UsageBucket
unfolding reset_at hash probe
reset_one key v count buckets =
    probe buckets count (hash key % count) (reset_at key v buckets) (λ _. buckets) count
      (hash key % count)

unfoldable pub reset_items : List Item → ℕ → List UsageBucket → List UsageBucket
unfolding reset_one
reset_items [] count buckets = buckets
reset_items ((key, v) ∷ items) count buckets =
    reset_items items count
      (if key.kind == kind_active then buckets else reset_one key v count buckets)

unfoldable pub reset_after_push : List Item → Option UsageMetrics → Option UsageMetrics
unfolding reset_items header_ptr
reset_after_push items zone =
    on_header (λ m. record m { buckets = reset_items items m.bucket_count m.buckets }) zone
