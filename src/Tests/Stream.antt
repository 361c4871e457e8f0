-- ===== src/Tests/Stream.antt =====
-- The theorems on the stream client at concrete answers.
use ngx_http_crowdsec_module.Base.Text.{codes, utf8, trim, is_ascii_digit}
use ngx_http_crowdsec_module.Base.Words.{i64_ge}
use ngx_http_crowdsec_module.Base.{
  ℕ, zero, suc, ◌≡◌, refl, ◌<◌, inl, true, false, Option, none, some, [], ◌∷◌, if◌then◌else◌,
  bytes_eq, arith,
}
use ngx_http_crowdsec_module.DecisionType.{DecisionType, resolve_unknown_type}
use ngx_http_crowdsec_module.Net.{IpAddr, v4, v6, canonicalize_ip}
use ngx_http_crowdsec_module.Shm.Lookup.{lookup_ip}
use ngx_http_crowdsec_module.Shm.Metrics.{zero_counters}
use ngx_http_crowdsec_module.Shm.State.{ShmData}
use ngx_http_crowdsec_module.Shm.Trace.{start}
use ngx_http_crowdsec_module.Shm.Valid.{IsValid}
use ngx_http_crowdsec_module.Shm.Zone.{fresh, Worker}
use ngx_http_crowdsec_module.Stream.Apply.{GivesIps}
use ngx_http_crowdsec_module.Stream.Duration.Complete.{Reads-parse_duration}
use ngx_http_crowdsec_module.Stream.Duration.Reads.{Reads, hours, seconds, part}
use ngx_http_crowdsec_module.Stream.Duration.{parse_duration}
use ngx_http_crowdsec_module.Stream.Found.{poll-lookup_ip}
use ngx_http_crowdsec_module.Stream.Loop.{Shared, Attempt, poll_with_retry, Run, run_polling_loop}
use ngx_http_crowdsec_module.Stream.Retry.{poll_with_retry-synced}
use ngx_http_crowdsec_module.Stream.Whole.{run_polling_loop-IsValid}
use ngx_http_crowdsec_module.Stream.{
  Parsers, Decision, StreamResponse, default_config, Times, Agent, failed, answered, poll,
}

hour_and_half : Reads (utf8 (trim (codes "1h30"))) 3630
unfolding utf8 trim
hour_and_half =
    part 49 [] 104 3600 (51 ∷ 48 ∷ []) 30 (unfold is_ascii_digit in refl) (hours 104 refl)
      (seconds 51 (48 ∷ []) (unfold is_ascii_digit in refl))

Reads-parse_duration_example : parse_duration (codes "1h30") ≡ some 3630
Reads-parse_duration_example =
    Reads-parse_duration (codes "1h30") 3630 hour_and_half (ground arith) (ground arith)

abbrev visitor : IpAddr
visitor = v4 (192 ∷ 0 ∷ 2 ∷ 9 ∷ [])

abbrev few : Parsers
few = record {
  parse_ip = λ s. if bytes_eq s (codes "192.0.2.9") then some visitor else none;
  addr = record { parse_u8 = λ s. none; parse_v4 = λ s. none; parse_v6 = λ s. none };
}

few-GivesIps : GivesIps few
few-GivesIps s (v4 o) e = ground arith
few-GivesIps s (v6 o) e = absurd (ground arith)

abbrev banned : Decision
banned = record {
  id = some 1;
  origin = some (codes "crowdsec");
  decision_type = codes "ban";
  scope = some (codes "Ip");
  value = some (codes "192.0.2.9");
  duration = some (codes "4h");
  scenario = none;
  until = none;
  simulated = none;
  uuid = none;
}

abbrev answer : StreamResponse
answer = record { new = some (banned ∷ []); deleted = none }

abbrev times : Times
times = record {
  removing = λ i. some 1000;
  adding = λ i. record { at_start = some 1000; at_prune = some 1000; at_evict = some 1000 };
}

abbrev lapi : Agent
lapi = λ url key timeout. answered answer

abbrev store : Option ShmData
store = some (fresh 4)

poll-lookup_ip_example :
    ((lookup_ip
        (poll few default_config times false lapi store).0
        (canonicalize_ip visitor)
        2000).found
      ≡ true)
    × ((lookup_ip
          (poll few default_config times false lapi store).0
          (canonicalize_ip visitor)
          2000).decision_type
        ≡ DecisionType.ban)
poll-lookup_ip_example =
    poll-lookup_ip 4 few default_config times false lapi store answer [] banned (codes "192.0.2.9")
      visitor 2000 (ground arith) (ground arith) few-GivesIps start refl refl refl refl
      (unfold bytes_eq in refl) (unfold resolve_unknown_type in refl)
      (unfold parse_duration i64_ge in refl)

-- One failure, then answers.
abbrev attempts : ℕ → Attempt
attempts zero = record {
  agent = λ url key timeout. failed (codes "refused");
  times = times;
  now = 999;
  running_after = true;
}
attempts (suc i) = record { agent = lapi; times = times; now = 1000; running_after = true }

abbrev shared : Shared
shared = record { zone = store; metrics = some zero_counters }

always_on : (j : ℕ) → j < 1 → (attempts j).running_after ≡ true
always_on zero lt = refl
always_on (suc j) lt = refl

poll_with_retry-synced_example :
    (c : ℕ × ℕ) × ((poll_with_retry few default_config true attempts shared).1 ≡ inl c)
poll_with_retry-synced_example =
    poll_with_retry-synced few default_config true attempts 1 shared (1, 0) (ground arith)
      (unfold poll in refl) always_on

abbrev worker : Worker
worker = record { zone = store; is_poller = false }

abbrev run : Run
run = record {
  waiting = (λ pid. false) ∷ [];
  running = true;
  attempts = attempts;
  started_at = 0;
  rounds =
      (record { running = true; attempt = attempts 1; elapsed_at = 10; push_succeeds = true }) ∷ [];
}

run_polling_loop-IsValid_example :
    (s : ShmData) × ((run_polling_loop few default_config 42 run worker (some zero_counters)).zone
      ≡ some s)
    × IsValid s
run_polling_loop-IsValid_example =
    run_polling_loop-IsValid 4 few default_config few-GivesIps 42 run worker (some zero_counters)
      (ground arith) (ground arith) start
