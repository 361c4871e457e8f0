-- ===== src/Shm/Zone/Poller.antt =====
-- The election of the poller.
use ngx_http_crowdsec_module.Base.{
  ℕ, ◌≡◌, ◌≢◌, Bool, true, false, not, ◌||◌, Option, none, some, ◌==◌, if◌then◌else◌, arith,
}
use ngx_http_crowdsec_module.Shm.State.{ShmData}
use ngx_http_crowdsec_module.Shm.Zone.{
  Worker, process_alive, drop_dead_claim, try_become_poller, release_poller,
}

-- The process that has the role, zero for none.
abbrev pub owner : Option ShmData → ℕ
owner none = 0
owner (some s) = s.poller_pid

-- May the worker have the role?
abbrev pub is_open : (ℕ → Bool) → ℕ → ℕ → Bool
is_open signalled my_pid held = held == 0 || held == my_pid || not (process_alive signalled held)

module _ (signalled : ℕ → Bool) (my_pid : ℕ) (s : ShmData) (mine : Bool) where
  abbrev w : Worker
  w = record { zone = some s; is_poller = mine }

  -- A call of try_become_poller that no other call interrupts succeeds exactly if nobody, this
  -- worker or a dead process has the role; then this worker has it, and otherwise the owner keeps
  -- it.
  pub try_become_poller_cases :
      ((try_become_poller signalled my_pid w).1 ≡ is_open signalled my_pid s.poller_pid)
      × (owner (try_become_poller signalled my_pid w).0.zone
          ≡ (if is_open signalled my_pid s.poller_pid then my_pid else s.poller_pid))
      × ((try_become_poller signalled my_pid w).0.is_poller
          ≡ (if is_open signalled my_pid s.poller_pid then true else mine))
  unfolding try_become_poller drop_dead_claim
  try_become_poller_cases = ground arith

-- The call of the worker `pid` on a zone.
abbrev pub attempt : (ℕ → Bool) → ℕ → Option ShmData → Worker × Bool
attempt signalled pid zone =
    try_become_poller signalled pid (record { zone = zone; is_poller = false })

-- Without interleaving, a worker, whose process number is not zero, that got the poller role keeps
-- it against any other worker while its process is alive, and the other gets it once it is
-- released.
pub try_become_poller_excludes :
    (signalled : ℕ → Bool) (p q : ℕ) (s : ShmData)
    → p ≢ q
    → p ≢ 0
    → process_alive signalled p ≡ true
    → (attempt signalled p (some s)).1 ≡ true
    → ((attempt signalled q (attempt signalled p (some s)).0.zone).1 ≡ false)
      × (owner (attempt signalled q (attempt signalled p (some s)).0.zone).0.zone ≡ p)
      × ((attempt signalled q (release_poller p (attempt signalled p (some s)).0).zone).1 ≡ true)
unfolding try_become_poller release_poller drop_dead_claim
try_become_poller_excludes signalled p q s ne nz alive won = ground arith
