-- ===== src/Shm/Counters/Bounds.antt =====
-- The entries that count at a time against all that the table holds.
use ngx_http_crowdsec_module.Base.{ℕ, zero, suc, ◌≤◌, some, List, [], ◌∷◌, count, take, arith}
use ngx_http_crowdsec_module.Shm.Counters.{is_active, get_active_count, get_count}
use ngx_http_crowdsec_module.Shm.Entry.{ShmHashEntry}
use ngx_http_crowdsec_module.Shm.Key.{is_live}
use ngx_http_crowdsec_module.Shm.State.{ShmData}
use ngx_http_crowdsec_module.Shm.Valid.{IsValid}

active-le-live :
    (now n : ℕ) (es : List ShmHashEntry) → count (is_active now) (take n es) ≤ count is_live es
active-le-live now zero es = omega arith
active-le-live now (suc n) [] = omega arith
active-le-live now (suc n) (e ∷ es) = ground (arith, active-le-live now n es)

-- In a valid zone no more decisions are reported as active than the zone has entries.
pub get_active_count-le-get_count :
    (s : ShmData) (now : ℕ) → IsValid s → get_active_count (some s) now ≤ get_count (some s)
unfolding get_active_count get_count
get_active_count-le-get_count s now v =
    omega (arith, v.counted, active-le-live now s.capacity s.entries)
