-- ===== src/Stream/Retry.antt =====
-- How the first synchronization ends: `poll_with_retry` of src/stream.rs.
use ngx_http_crowdsec_module.Base.{
  ℕ, zero, suc, ◌≡◌, ◌≤◌, ◌<◌, refl, sym, ◌∙◌, ◌⊎◌, inl, inr, Bool, true, false, Option, none, ltb,
  ◌==◌, false≢true, arith, Bool-cases,
}
use ngx_http_crowdsec_module.Shm.State.{ShmData}
use ngx_http_crowdsec_module.Stream.Loop.{
  Shared, Attempt, count_ok, count_err, poll_shared, retry_from, poll_with_retry,
}
use ngx_http_crowdsec_module.Stream.{
  Parsers, StreamClientConfig, StreamError, Times, Agent, Exchange, failed, malformed, answered,
  PollResult, on_exchange, poll, build_url,
}

-- A poll that fails changes nothing.
pub poll_unchanged :
    (std : Parsers) (config : StreamClientConfig) (times : Times) (startup : Bool) (agent : Agent)
    (store : Option ShmData) (e : StreamError)
    → (poll std config times startup agent store).1 ≡ inr e
    → (poll std config times startup agent store).0 ≡ store
unfolding poll
poll_unchanged std config times startup agent store e h =
    go (agent (build_url config startup) config.api_key config.timeout_secs) h
  where
    go :
        (x : Exchange)
        → (on_exchange std config.fallback_remediation times startup x store).1 ≡ inr e
        → (on_exchange std config.fallback_remediation times startup x store).0 ≡ store
    go (failed m) f = refl
    go (malformed m) f = refl
    go (answered r) f = absurd (ground arith)

Sum-cases : (x : PollResult) → ((c : ℕ × ℕ) × (x ≡ inl c)) ⊎ ((e : StreamError) × (x ≡ inr e))
Sum-cases (inl c) = inl (c, refl)
Sum-cases (inr e) = inr (e, refl)

-- The result of an attempt does not depend on the store.
abbrev pub result_of : Parsers → StreamClientConfig → Bool → Attempt → PollResult
result_of std config startup a = (poll std config a.times startup a.agent none).1

poll_result :
    (std : Parsers) (config : StreamClientConfig) (times : Times) (startup : Bool) (agent : Agent)
    (store : Option ShmData)
    → (poll std config times startup agent store).1 ≡ (poll std config times startup agent none).1
unfolding poll
poll_result std config times startup agent store =
    go (agent (build_url config startup) config.api_key config.timeout_secs)
  where
    go :
        (x : Exchange)
        → (on_exchange std config.fallback_remediation times startup x store).1
          ≡ (on_exchange std config.fallback_remediation times startup x none).1
    go (failed m) = refl
    go (malformed m) = refl
    go (answered r) = refl

lt-cases : (a b : ℕ) → (a < b) ⊎ (a ≡ b) ⊎ (b < a)
lt-cases a b = elim (Bool-cases (ltb a b)) [
  | inl e ↦ inl (ground arith)
  | inr e ↦ elim (Bool-cases (a == b)) [
    | inl f ↦ inr (inl (ground arith))
    | inr f ↦ inr (inr (ground arith))
  ]
]

module _ (std : Parsers) (config : StreamClientConfig) (startup : Bool) where
  -- The first `k` attempts fail, and the client is still to run behind each.
  abbrev pub FailsBefore : (ℕ → Attempt) → ℕ → Type 0
  FailsBefore attempts k =
      (j : ℕ)
      → j < k
      → ((e : StreamError) × (result_of std config startup (attempts j) ≡ inr e))
        × ((attempts j).running_after ≡ true)

  -- The ways in which the loop can end, with `left` retries.
  pub data Outcome (attempts : ℕ → Attempt) (left : ℕ) (s : Shared)
      : Shared × PollResult → Type 0 where
    synced :
        (k : ℕ) (counts : ℕ × ℕ)
        → k ≤ left
        → FailsBefore attempts k
        → result_of std config startup (attempts k) ≡ inl counts
        → Outcome attempts left s (
          count_ok (attempts k).now (poll_shared std config startup (attempts k) s).0,
          inl counts,
        )
    stopped :
        (k : ℕ) (e : StreamError)
        → k < left
        → FailsBefore attempts k
        → result_of std config startup (attempts k) ≡ inr e
        → (attempts k).running_after ≡ false
        → Outcome attempts left s (s, inr e)
    exhausted :
        (e : StreamError)
        → FailsBefore attempts left
        → result_of std config startup (attempts left) ≡ inr e
        → Outcome attempts left s (count_err s, inr e)

  same_result :
      (a : Attempt) (s : Shared) (x : PollResult)
      → (poll std config a.times startup a.agent s.zone).1 ≡ x
      → result_of std config startup a ≡ x
  same_result a s x h = sym (poll_result std config a.times startup a.agent s.zone) ∙ h

  Later-FailsBefore :
      (attempts : ℕ → Attempt) (k : ℕ) (e : StreamError)
      → result_of std config startup (attempts 0) ≡ inr e
      → (attempts 0).running_after ≡ true
      → FailsBefore (λ i. attempts (suc i)) k
      → FailsBefore attempts (suc k)
  Later-FailsBefore attempts k e h r f zero lt = ((e, h), r)
  Later-FailsBefore attempts k e h r f (suc j) lt = f j (omega arith)

  Later-Outcome :
      (attempts : ℕ → Attempt) (left : ℕ) (s : Shared) (e : StreamError) (x : Shared × PollResult)
      → result_of std config startup (attempts 0) ≡ inr e
      → (attempts 0).running_after ≡ true
      → Outcome (λ i. attempts (suc i)) left s x
      → Outcome attempts (suc left) s x
  Later-Outcome attempts left s e x h r (synced k counts le f ok) =
      synced (suc k) counts (omega arith) (Later-FailsBefore attempts k e h r f) ok
  Later-Outcome attempts left s e x h r (stopped k e' lt f bad stop) =
      stopped (suc k) e' (omega arith) (Later-FailsBefore attempts k e h r f) bad stop
  Later-Outcome attempts left s e x h r (exhausted e' f bad) =
      exhausted e' (Later-FailsBefore attempts left e h r f) bad

  retry_from-Outcome :
      (attempts : ℕ → Attempt) (left : ℕ) (s : Shared)
      → Outcome attempts left s (retry_from std config startup attempts left s)
  retry_from-Outcome attempts zero s =
      elim (Sum-cases (poll std config (attempts 0).times startup (attempts 0).agent s.zone).1) [
        | inl (counts, ok) ↦ rw ok (
            synced 0 counts (omega arith) (λ j lt. absurd (omega arith))
              (same_result (attempts 0) s (inl counts) ok))
        | inr (e, bad) ↦
            rw
              (
                bad,
                poll_unchanged std config (attempts 0).times startup (attempts 0).agent s.zone e
                    bad,
              )
              (exhausted e (λ j lt. absurd (omega arith)) (same_result (attempts 0) s (inr e) bad))
      ]
  retry_from-Outcome attempts (suc left) s =
      elim (Sum-cases (poll std config (attempts 0).times startup (attempts 0).agent s.zone).1) [
        | inl (counts, ok) ↦ rw ok (
            synced 0 counts (omega arith) (λ j lt. absurd (omega arith))
              (same_result (attempts 0) s (inl counts) ok))
        | inr (e, bad) ↦
            let here = same_result (attempts 0) s (inr e) bad in
            elim (Bool-cases (attempts 0).running_after) [
              | inl on ↦
                  rw
                    (
                      bad,
                      poll_unchanged std config (attempts 0).times startup (attempts 0).agent s.zone
                          e bad,
                      on,
                    )
                    (Later-Outcome attempts left s e _ here on
                      (retry_from-Outcome (λ i. attempts (suc i)) left s))
              | inr off ↦
                  rw
                    (
                      bad,
                      poll_unchanged std config (attempts 0).times startup (attempts 0).agent s.zone
                          e bad,
                      off,
                    )
                    (stopped 0 e (omega arith) (λ j lt. absurd (omega arith)) here off)
            ]
      ]

  pub poll_with_retry-Outcome :
      (attempts : ℕ → Attempt) (s : Shared)
      → Outcome attempts config.max_retries s (poll_with_retry std config startup attempts s)
  unfolding poll_with_retry
  poll_with_retry-Outcome attempts s = retry_from-Outcome attempts config.max_retries s

  contradiction :
      (a : Attempt) (counts : ℕ × ℕ) (e : StreamError)
      → result_of std config startup a ≡ inl counts
      → result_of std config startup a ≡ inr e
      → ⊥
  contradiction a counts e ok bad = let both : inl counts ≡ inr e = sym ok ∙ bad in ground arith

  Outcome-synced :
      (attempts : ℕ → Attempt) (left k : ℕ) (s : Shared) (counts : ℕ × ℕ) (x : Shared × PollResult)
      → k ≤ left
      → result_of std config startup (attempts k) ≡ inl counts
      → ((j : ℕ) → j < k → (attempts j).running_after ≡ true)
      → Outcome attempts left s x
      → (c : ℕ × ℕ) × (x.1 ≡ inl c)
  Outcome-synced attempts left k s counts x le ok on (synced k' c le' f ok') = (c, refl)
  Outcome-synced attempts left k s counts x le ok on (stopped k' e lt f bad off) =
      elim (lt-cases k k') [
        | inl before ↦
            let ((e', bad'), _) = f k before in
            absurd (contradiction (attempts k) counts e' ok bad')
        | inr (inl same) ↦ absurd (contradiction (attempts k) counts e ok (rw same bad))
        | inr (inr behind) ↦ absurd (false≢true (sym off ∙ on k' behind))
      ]
  Outcome-synced attempts left k s counts x le ok on (exhausted e f bad) = elim (lt-cases k left) [
    | inl before ↦
        let ((e', bad'), _) = f k before in absurd (contradiction (attempts k) counts e' ok bad')
    | inr (inl same) ↦ absurd (contradiction (attempts k) counts e ok (rw same bad))
    | inr (inr behind) ↦ absurd (omega arith)
  ]

  -- If one of the first max_retries + 1 attempts is answered and the client is not stopped before
  -- it, the first synchronization succeeds.
  pub poll_with_retry-synced :
      (attempts : ℕ → Attempt) (k : ℕ) (s : Shared) (counts : ℕ × ℕ)
      → k ≤ config.max_retries
      → result_of std config startup (attempts k) ≡ inl counts
      → ((j : ℕ) → j < k → (attempts j).running_after ≡ true)
      → (c : ℕ × ℕ) × ((poll_with_retry std config startup attempts s).1 ≡ inl c)
  poll_with_retry-synced attempts k s counts le ok on =
      Outcome-synced attempts config.max_retries k s counts _ le ok on
        (poll_with_retry-Outcome attempts s)
