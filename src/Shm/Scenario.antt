-- ===== src/Shm/Scenario.antt =====
-- src/shm.rs: `ShmScenario`, a row of the table of scenario names. A name is the list of its bytes.
use ngx_http_crowdsec_module.Base.{
  ℕ, zero, suc, ◌-◌, Bool, false, not, Option, none, some, List, [], ◌∷◌, ◌++◌, ltb, ◌==◌,
  if◌then◌else◌, length, take, replicate, min, bytes_eq,
}
use ngx_http_crowdsec_module.Base.Text.{within}

pub record ShmScenario : Type 0 where
  pub len : ℕ
  pub text : List ℕ

abbrev pub max_scenarios : ℕ
max_scenarios = 256

abbrev pub max_scenario_len : ℕ
max_scenario_len = 127

abbrev pub empty : ShmScenario
empty = record { len = 0; text = replicate max_scenario_len 0 }

unfoldable pub is_empty : ShmScenario → Bool
is_empty e = e.len == 0

unfoldable pub matches : ShmScenario → List ℕ → Bool
unfolding bytes_eq
matches e scenario =
    if not (e.len == length scenario) then false else bytes_eq (take e.len e.text) scenario

-- A longer name is cut off.
unfoldable pub from_str : List ℕ → ShmScenario
from_str scenario =
    let len = min (length scenario) max_scenario_len in
    record { len = len; text = take len scenario ++ replicate (max_scenario_len - len) 0 }

-- How many continuation bytes are due, and the range of the next.
record Due : Type 0 where
  more : ℕ
  lo : ℕ
  hi : ℕ

abbrev due : ℕ → ℕ → ℕ → Option Due
due more lo hi = some (record { more = more; lo = lo; hi = hi })

first_byte : ℕ → Option Due
first_byte a =
    if ltb a 0x80
    then due 0 0x80 0xbf
    else if within 0xc2 0xdf a
    then due 1 0x80 0xbf
    else if a == 0xe0
    then due 2 0xa0 0xbf
    else if a == 0xed
    then due 2 0x80 0x9f
    else if within 0xe1 0xef a
    then due 2 0x80 0xbf
    else if a == 0xf0
    then due 3 0x90 0xbf
    else if a == 0xf4
    then due 3 0x80 0x8f
    else if within 0xf1 0xf3 a
    then due 3 0x80 0xbf
    else none

next_byte : ℕ → ℕ → ℕ → ℕ → Option Due
next_byte zero lo hi a = first_byte a
next_byte (suc more) lo hi a = if within lo hi a then due more 0x80 0xbf else none

valid_from : Due → List ℕ → Bool
valid_from d [] = d.more == 0
valid_from d (a ∷ s) = elim (next_byte d.more d.lo d.hi a) [
  | none ↦ false
  | some d' ↦ valid_from d' s
]

-- `std::str::from_utf8(..).is_ok()`
unfoldable pub valid_utf8 : List ℕ → Bool
unfolding valid_from next_byte first_byte
valid_utf8 s = valid_from (record { more = 0; lo = 0x80; hi = 0xbf }) s

-- The stored name, or nothing where cutting it off has split a character.
unfoldable pub as_str : ShmScenario → List ℕ
unfolding valid_utf8
as_str e =
    if e.len == 0 then [] else if valid_utf8 (take e.len e.text) then take e.len e.text else []
