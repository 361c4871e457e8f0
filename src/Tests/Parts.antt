-- ===== src/Tests/Parts.antt =====
-- The theorems on the parts of an entry, on addresses, and on how the zone comes up.
use ngx_http_crowdsec_module.Base.{ℕ, ◌+◌, ◌≡◌, refl, Bool, true, false, Option, some, ◌==◌, arith}
use ngx_http_crowdsec_module.Shm.State.{ShmData}
use ngx_http_crowdsec_module.Shm.Zone.Init.{Started, decisions_shm_zone_init-Started}
use ngx_http_crowdsec_module.Shm.Zone.Poller.{owner, attempt, try_become_poller_excludes}
use ngx_http_crowdsec_module.Shm.Zone.{
  fresh, decisions_shm_zone_init, process_alive, try_become_poller, release_poller, drop_dead_claim,
}

-- A pool that always has room, and one process, 7, that is alive.
abbrev roomy : ℕ → ℕ → Option ℕ
roomy pool size = some (pool + size)

abbrev seven : ℕ → Bool
seven pid = pid == 7

-- The data of a reload, whose poller is gone.
abbrev before : ShmData
before = record (fresh 1024) { poller_pid = 8 }

decisions_shm_zone_init-Started_example :
    Started roomy seven
      (some 0)
      1048576
      (some before)
      (decisions_shm_zone_init roomy seven (some before) (some 0) 1048576)
decisions_shm_zone_init-Started_example =
    decisions_shm_zone_init-Started roomy seven (some 0) 1048576 (some before) (omega arith)

try_become_poller_excludes_example :
    ((attempt seven 9 (attempt seven 7 (some (fresh 1024))).0.zone).1 ≡ false)
    × (owner (attempt seven 9 (attempt seven 7 (some (fresh 1024))).0.zone).0.zone ≡ 7)
    × ((attempt seven 9 (release_poller 7 (attempt seven 7 (some (fresh 1024))).0).zone).1 ≡ true)
try_become_poller_excludes_example =
    try_become_poller_excludes seven 7 9 (fresh 1024) (λ p. ground arith) (λ p. ground arith)
      (unfold process_alive in refl)
      (unfold try_become_poller drop_dead_claim fresh in ground arith)
