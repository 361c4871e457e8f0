-- ===== src/Shm/Counters.antt =====
-- src/shm.rs: what the metrics read of the store.
pub mod Bounds
use ngx_http_crowdsec_module.Base.{
  ℕ, ◌+◌, Bool, not, ◌&&◌, ◌||◌, Option, none, some, List, [], ◌∷◌, ◌==◌, if◌then◌else◌, take,
  count,
}
use ngx_http_crowdsec_module.Origin
use ngx_http_crowdsec_module.Origin.{Origin}
use ngx_http_crowdsec_module.Shm.Entry.{
  ShmHashEntry, is_vacant, has_decisions, is_expired_at, origin_of,
}
use ngx_http_crowdsec_module.Shm.State.{ShmData}

abbrev pub is_active : ℕ → ShmHashEntry → Bool
is_active now e = not (is_vacant e) && has_decisions e && not (is_expired_at e now)

-- `for idx in 0..capacity`
unfoldable pub get_active_count : Option ShmData → ℕ → ℕ
get_active_count none now = 0
get_active_count (some s) now = count (is_active now) (take s.capacity s.entries)

unfoldable pub get_count : Option ShmData → ℕ
get_count none = 0
get_count (some s) = s.count

unfoldable pub get_eviction_count : Option ShmData → ℕ
get_eviction_count none = 0
get_eviction_count (some s) = s.eviction_count

-- One row of the map that `count_active_decisions_by_origin` builds.
pub record OriginCount : Type 0 where
  pub origin : Origin
  pub scenario_id : ℕ
  pub family : ℕ
  pub total : ℕ

abbrev pub has_key : Origin → ℕ → ℕ → OriginCount → Bool
has_key origin scenario_id family r =
    Origin.to_u8 r.origin == Origin.to_u8 origin
    && r.scenario_id == scenario_id
    && r.family == family

-- `*counts.entry(key).or_insert(0) += 1`. The order of the map's rows is not specified.
unfoldable pub tally : Origin → ℕ → ℕ → List OriginCount → List OriginCount
tally origin scenario_id family [] =
    record { origin = origin; scenario_id = scenario_id; family = family; total = 1 } ∷ []
tally origin scenario_id family (r ∷ rows) =
    if has_key origin scenario_id family r
    then record r { total = r.total + 1 } ∷ rows
    else r ∷ tally origin scenario_id family rows

unfoldable pub tally_entries : ℕ → List ShmHashEntry → List OriginCount → List OriginCount
tally_entries now [] rows = rows
tally_entries now (e ∷ entries) rows =
    let skips = is_vacant e || not (has_decisions e) || is_expired_at e now in
    tally_entries now entries
      (if skips then rows else tally (origin_of e) e.scenario_id e.family rows)

unfoldable pub count_active_decisions_by_origin : Option ShmData → ℕ → List OriginCount
count_active_decisions_by_origin none now = []
count_active_decisions_by_origin (some s) now = tally_entries now (take s.capacity s.entries) []
