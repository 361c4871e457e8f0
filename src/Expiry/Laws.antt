-- ===== src/Expiry/Laws.antt =====
-- src/expiry.rs against `Remedy`: what merging, testing and pruning mean for each remediation.
use ngx_http_crowdsec_module.Base.{
  ℕ, ◌<◌, ◌≡◌, Bool, not, ◌==◌, if◌then◌else◌, bit_and, bit_or, arith,
}
use ngx_http_crowdsec_module.Base.Bits.{or_one_bits, or_two_bits, not_one_bits, not_two_bits}
use ngx_http_crowdsec_module.Expiry.{
  DecisionExpiry, merge_deadline, merge, active_mask, prune_inactive,
}
use ngx_http_crowdsec_module.Expiry.Remedy.{
  absent, join, is_live, of_deadline, ban_of, captcha_of, at,
}

-- One deadline: a new one replaces what an absent remediation left behind.
merge_deadline-join :
    (fresh : Bool) (deadline expires : ℕ)
    → of_deadline (merge_deadline fresh deadline expires)
      ≡ join (if fresh then absent else of_deadline deadline) (of_deadline expires)
unfolding merge_deadline
merge_deadline-join fresh deadline expires = ground arith

-- For a mask of one byte, merging a ban joins it to the ban that is there and leaves the captcha
-- alone, and merging a captcha does the same the other way round.
pub merge-join :
    (e : DecisionExpiry) (present expires : ℕ)
    → present < 256
    → (ban_of (merge e present 1 expires) (bit_or present 1)
        ≡ join (ban_of e present) (of_deadline expires))
      × (captcha_of (merge e present 1 expires) (bit_or present 1) ≡ captcha_of e present)
      × (captcha_of (merge e present 2 expires) (bit_or present 2)
          ≡ join (captcha_of e present) (of_deadline expires))
      × (ban_of (merge e present 2 expires) (bit_or present 2) ≡ ban_of e present)
unfolding merge
merge-join e present expires h = ground (
  arith,
  or_one_bits present h,
  or_two_bits present h,
  merge_deadline-join (bit_and present 1 == 0) e.ban expires,
  merge_deadline-join (bit_and present 2 == 0) e.captcha expires,
)

-- A bit of the active mask is set exactly while that remediation is live.
pub active_mask-is_live :
    (e : DecisionExpiry) (present now : ℕ)
    → present < 256
    → ((bit_and (active_mask e present now) 1 == 0) ≡ not (is_live (ban_of e present) now))
      × ((bit_and (active_mask e present now) 2 == 0) ≡ not (is_live (captcha_of e present) now))
unfolding active_mask
active_mask-is_live e present now h =
    ground
      (arith, not_one_bits present h, not_two_bits present h, not_two_bits (bit_and present 254))

-- For a mask of one byte, pruning drops each remediation whose deadline has passed and keeps the
-- other as it was.
pub prune_inactive-at :
    (e : DecisionExpiry) (present now : ℕ)
    → present < 256
    → (ban_of (prune_inactive e present now).0 (prune_inactive e present now).1
        ≡ at (ban_of e present) now)
      × (captcha_of (prune_inactive e present now).0 (prune_inactive e present now).1
          ≡ at (captcha_of e present) now)
unfolding prune_inactive
prune_inactive-at e present now h = ground (arith, active_mask-is_live e present now h)
