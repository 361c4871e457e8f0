-- ===== src/Shm/State.antt =====
-- src/shm.rs: `ShmData`, the header of the zone with the two tables that its offsets lead to, the
-- words that record which prefix lengths occur, and the table of scenario names. The functions here
-- run under the zone's lock.
use ngx_http_crowdsec_module.Base.{
  ℕ, zero, suc, ◌+◌, ◌-◌, ◌/◌, ◌%◌, ◌^◌, Bool, false, not, Option, none, some, List, ltb, leb, ◌==◌,
  if◌then◌else◌, length, get_or, set, bit_and, bit_or,
}
use ngx_http_crowdsec_module.Shm.Entry
use ngx_http_crowdsec_module.Shm.Entry.{ShmHashEntry}
use ngx_http_crowdsec_module.Shm.Scenario
use ngx_http_crowdsec_module.Shm.Scenario.{ShmScenario, max_scenarios}

pub record ShmData : Type 0 where
  pub magic : ℕ
  pub layout_version : ℕ
  pub lock : ℕ
  pub poller_pid : ℕ
  pub count : ℕ
  pub capacity : ℕ
  pub scenario_count : ℕ
  pub version : ℕ
  pub clock_hand : ℕ
  pub eviction_count : ℕ
  pub entries : List ShmHashEntry
  pub scenarios : List ShmScenario
  pub cidr_prefixes : List ℕ

-- `*entries.add(idx)`
abbrev pub entry_at : List ShmHashEntry → ℕ → ShmHashEntry
entry_at entries idx = get_or entries idx Entry.empty

unfoldable pub prefix_is_present : List ℕ → ℕ → Bool
prefix_is_present prefixes prefix =
    if leb (length prefixes) (prefix / 64)
    then false
    else not (bit_and (get_or prefixes (prefix / 64) 0) (2 ^ (prefix % 64)) == 0)

unfoldable pub mark_prefix_present : List ℕ → ℕ → List ℕ
mark_prefix_present prefixes prefix =
    if leb (length prefixes) (prefix / 64)
    then prefixes
    else set prefixes (prefix / 64) (bit_or (get_or prefixes (prefix / 64) 0) (2 ^ (prefix % 64)))

-- `for i in i..i + n`: the index of the first row with the name.
unfoldable pub scenario_index : ℕ → ℕ → List ShmScenario → List ℕ → Option ℕ
scenario_index zero i scenarios scenario = none
scenario_index (suc n) i scenarios scenario =
    let rest = scenario_index n (suc i) scenarios scenario in
    if Scenario.matches (get_or scenarios i Scenario.empty) scenario then some i else rest

-- The id is the index plus one, and 0 where the table is full.
unfoldable pub get_or_create_scenario_id : ShmData → List ℕ → ShmData × ℕ
get_or_create_scenario_id s scenario =
    let count = s.scenario_count in
    elim (scenario_index count 0 s.scenarios scenario) [
      | some i ↦ (s, (i + 1) % 2 ^ 16)
      | none ↦
          if ltb count max_scenarios
          then (
            record s {
              scenarios = set s.scenarios count (Scenario.from_str scenario);
              scenario_count = (s.scenario_count + 1) % 2 ^ 16;
            },
            (count + 1) % 2 ^ 16,
          )
          else (s, 0)
    ]

unfoldable pub get_scenario : Option ShmData → ℕ → Option (List ℕ)
get_scenario none scenario_id = none
get_scenario (some s) scenario_id =
    if scenario_id == 0
    then none
    else if leb scenario_id s.scenario_count
    then some (Scenario.as_str (get_or s.scenarios (scenario_id - 1) Scenario.empty))
    else none
