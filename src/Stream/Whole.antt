-- ===== src/Stream/Whole.antt =====
-- Every zone that the polling thread leaves is one that the writers of the store can reach.
use ngx_http_crowdsec_module.Base.{
  ℕ, zero, suc, ◌<◌, ◌≡◌, refl, inl, inr, Bool, true, false, ◌&&◌, ◌||◌, Option, none, some, List,
  [], ◌∷◌, ◌==◌, if◌then◌else◌, Bool-cases,
}
use ngx_http_crowdsec_module.Base.Words.{u32_mod}
use ngx_http_crowdsec_module.Shm.Metrics.{MetricsShm}
use ngx_http_crowdsec_module.Shm.State.{ShmData}
use ngx_http_crowdsec_module.Shm.Trace.{Reachable, Reachable-IsValid, then, drop_claim, take_claim}
use ngx_http_crowdsec_module.Shm.Valid.{IsValid}
use ngx_http_crowdsec_module.Shm.Zone.{Worker, try_become_poller, drop_dead_claim}
use ngx_http_crowdsec_module.Stream.Apply.{GivesIps, Reached, poll-Reached}
use ngx_http_crowdsec_module.Stream.Loop.{
  Shared, Attempt, after_last, after_earlier, poll_shared, retry_from, poll_with_retry,
  wait_for_role, Cycle, Polling, counted, cycle, cycles, Run, synchronized, run_polling_loop,
}
use ngx_http_crowdsec_module.Stream.{Parsers, StreamClientConfig, PollResult}

after_last_zone : (now : ℕ) (s : Shared) (x : PollResult) → (after_last now s x).0.zone ≡ s.zone
after_last_zone now s (inl c) = refl
after_last_zone now s (inr e) = refl

counted_zone : (now : ℕ) (s : Shared) (x : PollResult) → (counted now (s, x)).zone ≡ s.zone
counted_zone now s (inl c) = refl
counted_zone now s (inr e) = refl

module _ (capacity : ℕ) where
  elected-Reached :
      (signalled : ℕ → Bool) (my_pid : ℕ) (w : Worker)
      → Reached capacity w.zone
      → Reached capacity (try_become_poller signalled my_pid w).0.zone
  unfolding try_become_poller
  elected-Reached signalled my_pid w r = go w.zone r
    where
      go :
          (z : Option ShmData)
          → Reached capacity z
          → Reached capacity (try_become_poller signalled my_pid (record w { zone = z })).0.zone
      go none r = r
      go (some s) r =
          let s' = drop_dead_claim signalled my_pid s in
          let r' : Reachable capacity s' = (then) r (drop_claim signalled my_pid) in
          elim (Bool-cases (s'.poller_pid == 0 || s'.poller_pid == my_pid)) [
            | inl e ↦ rw e ((then) r' (take_claim 0 my_pid))
            | inr e ↦ rw e r'
          ]

  waited-Reached :
      (my_pid : ℕ) (rounds : List (ℕ → Bool)) (w : Worker)
      → Reached capacity w.zone
      → Reached capacity (wait_for_role my_pid rounds w).0.zone
  waited-Reached my_pid [] w r = r
  waited-Reached my_pid (signalled ∷ rest) w r =
      let (w', got_role) = try_become_poller signalled my_pid w in
      let r' = elected-Reached signalled my_pid w r in
      elim (Bool-cases got_role) [
        | inl e ↦ rw e r'
        | inr e ↦ rw e (waited-Reached my_pid rest w' r')
      ]

  module _ (std : Parsers) (config : StreamClientConfig) (ips : GivesIps std) where
    shared-Reached :
        (startup : Bool) (a : Attempt) (s : Shared)
        → Reached capacity s.zone
        → Reached capacity (poll_shared std config startup a s).0.zone
    shared-Reached startup a s r =
        poll-Reached capacity std config a.times startup a.agent s.zone ips r

    after_earlier-Reached :
        (a : Attempt) (next : Shared → Shared × PollResult) (s : Shared) (x : PollResult)
        → ((s' : Shared) → Reached capacity s'.zone → Reached capacity (next s').0.zone)
        → Reached capacity s.zone
        → Reached capacity (after_earlier a next s x).0.zone
    after_earlier-Reached a next s (inl c) h r = r
    after_earlier-Reached a next s (inr e) h r = elim (Bool-cases a.running_after) [
      | inl on ↦ rw on (h s r)
      | inr off ↦ rw off r
    ]

    retry_from-Reached :
        (startup : Bool) (attempts : ℕ → Attempt) (left : ℕ) (s : Shared)
        → Reached capacity s.zone
        → Reached capacity (retry_from std config startup attempts left s).0.zone
    retry_from-Reached startup attempts zero s r =
        let (s', x) = poll_shared std config startup (attempts 0) s in
        rw (after_last_zone (attempts 0).now s' x) (shared-Reached startup (attempts 0) s r)
    retry_from-Reached startup attempts (suc left) s r =
        let (s', x) = poll_shared std config startup (attempts 0) s in
        after_earlier-Reached (attempts 0)
          (λ s''. retry_from std config startup (λ i. attempts (suc i)) left s'') s' x
          (retry_from-Reached startup (λ i. attempts (suc i)) left)
          (shared-Reached startup (attempts 0) s r)

    cycle-Reached :
        (c : Cycle) (p : Polling)
        → Reached capacity (p.shared).zone
        → Reached capacity ((cycle std config c p).shared).zone
    unfolding cycle
    cycle-Reached c p r =
        let (s', x) = poll_shared std config false c.attempt p.shared in
        rw (counted_zone (c.attempt).now s' x) (shared-Reached false c.attempt p.shared r)

    either-Reached :
        (b : Bool) (p q : Polling)
        → Reached capacity (p.shared).zone
        → Reached capacity (q.shared).zone
        → Reached capacity ((if b then p else q).shared).zone
    either-Reached true p q r r' = r
    either-Reached false p q r r' = r'

    cycles-Reached :
        (cs : List Cycle) (p : Polling)
        → Reached capacity (p.shared).zone
        → Reached capacity ((cycles std config cs p).shared).zone
    cycles-Reached [] p r = r
    cycles-Reached (c ∷ cs) p r =
        either-Reached c.running _ p
          (cycles-Reached cs (cycle std config c p) (cycle-Reached c p r)) r

    synchronized-Reached :
        (run : Run) (s : Shared)
        → Reached capacity s.zone
        → Reached capacity (synchronized std config run s).zone
    unfolding poll_with_retry
    synchronized-Reached run s r =
        let (s', _) = poll_with_retry std config true run.attempts s in
        cycles-Reached run.rounds (record { shared = s'; last_metrics_push = run.started_at })
          (retry_from-Reached true run.attempts config.max_retries s r)

    run_polling_loop-Reached :
        (my_pid : ℕ) (run : Run) (w : Worker) (metrics : Option MetricsShm)
        → Reached capacity w.zone
        → Reached capacity (run_polling_loop std config my_pid run w metrics).zone
    unfolding run_polling_loop
    run_polling_loop-Reached my_pid run w metrics r =
        let (w', got_role) = wait_for_role my_pid run.waiting w in
        let r' = waited-Reached my_pid run.waiting w r in
        elim (Bool-cases (got_role && run.running)) [
          | inl e ↦
              rw e (synchronized-Reached run (record { zone = w'.zone; metrics = metrics }) r')
          | inr e ↦ rw e r'
        ]

    -- From a zone that the writers can reach, of a positive capacity below 2^32, every run of the
    -- polling thread, through election, retries, failures and updates, leaves a zone that keeps
    -- the invariant, if the address parser gives four or sixteen bytes.
    pub run_polling_loop-IsValid :
        (my_pid : ℕ) (run : Run) (w : Worker) (metrics : Option MetricsShm)
        → 0 < capacity
        → capacity < u32_mod
        → Reached capacity w.zone
        → (s : ShmData) × ((run_polling_loop std config my_pid run w metrics).zone ≡ some s)
          × IsValid s
    run_polling_loop-IsValid my_pid run w metrics pos small r =
        valid (run_polling_loop std config my_pid run w metrics).zone
          (run_polling_loop-Reached my_pid run w metrics r)
      where
        valid : (z : Option ShmData) → Reached capacity z → (s : ShmData) × (z ≡ some s) × IsValid s
        valid none r' = absurd r'
        valid (some s) r' = (s, refl, Reachable-IsValid capacity s pos small r')
