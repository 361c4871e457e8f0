-- ===== src/Expiry.antt =====
-- src/expiry.rs: the deadline of each remediation of a decision. A deadline is an `i64`, zero for
-- none; `present` is the entry's bitmask of remediations, bit 0 the ban and bit 1 the captcha.
pub mod Remedy
pub mod Laws
use ngx_http_crowdsec_module.Base.{ℕ, Bool, not, ◌&&◌, ◌||◌, ◌==◌, if◌then◌else◌, bit_and}
use ngx_http_crowdsec_module.Base.Words.{i64_ge, i64_max_of}

pub record DecisionExpiry : Type 0 where
  pub ban : ℕ
  pub captcha : ℕ

abbrev pub empty : DecisionExpiry
empty = record { ban = 0; captcha = 0 }

-- The assignment to `*deadline`; the flag is `present & bit == 0`.
unfoldable pub merge_deadline : Bool → ℕ → ℕ → ℕ
merge_deadline fresh deadline expires =
    if fresh
    then expires
    else if deadline == 0 || expires == 0
    then 0
    else i64_max_of deadline expires

unfoldable pub merge : DecisionExpiry → ℕ → ℕ → ℕ → DecisionExpiry
merge e present bit expires =
    let fresh = bit_and present bit == 0 in
    if bit == 1
    then record e { ban = merge_deadline fresh e.ban expires }
    else if bit == 2
    then record e { captcha = merge_deadline fresh e.captcha expires }
    else e

-- `deadline != 0 && now >= deadline`
abbrev pub has_passed : ℕ → ℕ → Bool
has_passed deadline now = not (deadline == 0) && i64_ge now deadline

unfoldable pub active_mask : DecisionExpiry → ℕ → ℕ → ℕ
active_mask e present now =
    let active = if has_passed e.ban now then bit_and present 254 else present in
    if has_passed e.captcha now then bit_and active 253 else active

unfoldable pub clear_bit : DecisionExpiry → ℕ → DecisionExpiry
clear_bit e bit =
    if bit == 1 then record e { ban = 0 } else if bit == 2 then record e { captcha = 0 } else e

-- The new deadlines, and the bits that are still active.
unfoldable pub prune_inactive : DecisionExpiry → ℕ → ℕ → DecisionExpiry × ℕ
prune_inactive e present now =
    let active = active_mask e present now in
    let kept = if bit_and active 1 == 0 then record e { ban = 0 } else e in
    (if bit_and active 2 == 0 then record kept { captcha = 0 } else kept, active)
