-- ===== src/Stream/Loop.antt =====
-- src/stream.rs: `poll_with_retry` and `run_polling_loop`. A pause and the flag `running` that is
-- read behind it are inputs, and so is the outcome of a push of the usage metrics.
use ngx_http_crowdsec_module.Base.{
  ℕ, zero, suc, ◌-◌, ◌*◌, ◌^◌, inl, inr, Bool, true, false, ◌&&◌, Option, List, [], ◌∷◌, ltb, leb,
  if◌then◌else◌,
}
use ngx_http_crowdsec_module.Shm.Metrics.{MetricsShm, metrics_inc, lapi_poll_ok, lapi_poll_err}
use ngx_http_crowdsec_module.Shm.State.{ShmData}
use ngx_http_crowdsec_module.Shm.Zone.{Worker, try_become_poller}
use ngx_http_crowdsec_module.Stream.{Parsers, StreamClientConfig, Times, Agent, PollResult, poll}

-- The decision store and the shared counters.
pub record Shared : Type 0 where
  pub zone : Option ShmData
  pub metrics : Option MetricsShm

-- What stands outside of one attempt: the agent, the clocks, the second that a success records, and
-- whether the client is still to run after the pause that follows a failure.
pub record Attempt : Type 0 where
  pub agent : Agent
  pub times : Times
  pub now : ℕ
  pub running_after : Bool

abbrev pub count_ok : ℕ → Shared → Shared
count_ok now s = record s { metrics = metrics_inc (lapi_poll_ok now) s.metrics }

abbrev pub count_err : Shared → Shared
count_err s = record s { metrics = metrics_inc lapi_poll_err s.metrics }

abbrev pub poll_shared :
    Parsers → StreamClientConfig → Bool → Attempt → Shared → Shared × PollResult
poll_shared std config startup a s =
    let (zone', result) = poll std config a.times startup a.agent s.zone in
    (record s { zone = zone' }, result)

-- The arms of the loop's match: for the last attempt, and for one that others follow.
abbrev pub after_last : ℕ → Shared → PollResult → Shared × PollResult
after_last now s (inl counts) = (count_ok now s, inl counts)
after_last now s (inr e) = (count_err s, inr e)

abbrev pub after_earlier :
    Attempt → (Shared → Shared × PollResult) → Shared → PollResult → Shared × PollResult
after_earlier a next s (inl counts) = (count_ok a.now s, inl counts)
after_earlier a next s (inr e) = if a.running_after then next s else (s, inr e)

-- The loop, given the attempts that are to come, of which `left` follow the next one.
abbrev pub retry_from :
    Parsers → StreamClientConfig → Bool → (ℕ → Attempt) → ℕ → Shared → Shared × PollResult
retry_from std config startup attempts zero s =
    let (s', result) = poll_shared std config startup (attempts 0) s in
    after_last (attempts 0).now s' result
retry_from std config startup attempts (suc left) s =
    let next = λ (s' : Shared). retry_from std config startup (λ i. attempts (suc i)) left s' in
    let (s', result) = poll_shared std config startup (attempts 0) s in
    after_earlier (attempts 0) next s' result

unfoldable pub poll_with_retry :
    Parsers → StreamClientConfig → Bool → (ℕ → Attempt) → Shared → Shared × PollResult
unfolding poll metrics_inc
poll_with_retry std config startup attempts s =
    retry_from std config startup attempts config.max_retries s

-- The loop that waits for the poller role: one answer of `kill` for each round in which the flag is
-- set.
abbrev pub wait_for_role : ℕ → List (ℕ → Bool) → Worker → Worker × Bool
wait_for_role my_pid [] w = (w, false)
wait_for_role my_pid (signalled ∷ rest) w =
    let later = λ (w' : Worker). wait_for_role my_pid rest w' in
    let (w', got_role) = try_become_poller signalled my_pid w in
    if got_role then (w', true) else later w'

-- One round of the main loop: the flag after the pause, the attempt, the time at its end in
-- nanoseconds, and whether a push of the usage metrics succeeds.
pub record Cycle : Type 0 where
  pub running : Bool
  pub attempt : Attempt
  pub elapsed_at : ℕ
  pub push_succeeds : Bool

-- What the main loop carries: the shared memory, and when the usage metrics were pushed last.
pub record Polling : Type 0 where
  pub shared : Shared
  pub last_metrics_push : ℕ

abbrev pub counted : ℕ → Shared × PollResult → Shared
counted now (s, inl _) = count_ok now s
counted now (s, inr _) = count_err s

unfoldable pub cycle : Parsers → StreamClientConfig → Cycle → Polling → Polling
unfolding poll metrics_inc
cycle std config c p =
    let interval = config.usage_metrics_interval_secs in
    let due = ltb 0 interval && leb (interval * 10 ^ 9) (c.elapsed_at - p.last_metrics_push) in
    record {
      shared = counted (c.attempt).now (poll_shared std config false c.attempt p.shared);
      last_metrics_push = if due && c.push_succeeds then c.elapsed_at else p.last_metrics_push;
    }

-- The main loop: one entry for each round in which the flag is set at the top.
abbrev pub cycles : Parsers → StreamClientConfig → List Cycle → Polling → Polling
cycles std config [] p = p
cycles std config (c ∷ cs) p =
    let rest = cycles std config cs (cycle std config c p) in if c.running then rest else p

-- What a run of the thread meets: the rounds of the wait, the flag behind it, the attempts of the
-- first synchronization, when the main loop begins, and its rounds.
pub record Run : Type 0 where
  pub waiting : List (ℕ → Bool)
  pub running : Bool
  pub attempts : ℕ → Attempt
  pub started_at : ℕ
  pub rounds : List Cycle

abbrev pub synchronized : Parsers → StreamClientConfig → Run → Shared → Shared
synchronized std config r s =
    let (s', _) = poll_with_retry std config true r.attempts s in
    (cycles std config r.rounds (record { shared = s'; last_metrics_push = r.started_at })).shared

-- Without the role the flag was found unset, so that the thread ends.
unfoldable pub run_polling_loop :
    Parsers → StreamClientConfig → ℕ → Run → Worker → Option MetricsShm → Shared
unfolding try_become_poller poll_with_retry cycle
run_polling_loop std config my_pid r w metrics =
    let (w', got_role) = wait_for_role my_pid r.waiting w in
    if got_role && r.running
    then synchronized std config r (record { zone = w'.zone; metrics = metrics })
    else record { zone = w'.zone; metrics = metrics }
