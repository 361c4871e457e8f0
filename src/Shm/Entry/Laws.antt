-- ===== src/Shm/Entry/Laws.antt =====
-- What merging, pruning and removing do to the two remediations of an entry.
use ngx_http_crowdsec_module.Base.{
  ℕ, ◌≤◌, ◌<◌, ◌≡◌, refl, sym, ◌∙◌, false, not, if◌then◌else◌, bit_and, bit_or, arith,
}
use ngx_http_crowdsec_module.Base.Bits.{
  bit_and_255, two_bits-zero, zero-two_bits, bit_or-one, bit_or-two, bit_or_zero, not_one_bits,
  not_two_bits, bit_and-not_one, bit_and-not_two,
}
use ngx_http_crowdsec_module.DecisionType.{DecisionType, to_bit, from_bitmask, unknown}
use ngx_http_crowdsec_module.Expiry.Laws.{merge-join, active_mask-is_live, prune_inactive-at}
use ngx_http_crowdsec_module.Expiry.Remedy.{
  Remedy, absent, join, is_live, of_deadline, ban_of, captcha_of, at,
}
use ngx_http_crowdsec_module.Expiry.{DecisionExpiry, merge, active_mask, clear_bit, prune_inactive}
use ngx_http_crowdsec_module.Shm.Entry.{
  ShmHashEntry, has_decisions, prune_expired, remove_decision_type, decision_type_at, is_expired_at,
}

abbrev pub ban_at : ShmHashEntry → Remedy
ban_at e = ban_of e.expires e.decision_types

abbrev pub captcha_at : ShmHashEntry → Remedy
captcha_at e = captcha_of e.expires e.decision_types

-- What a decision asks for.
abbrev pub asked_ban : DecisionType → ℕ → Remedy
asked_ban DecisionType.ban expires = of_deadline expires
asked_ban _ expires = absent

abbrev pub asked_captcha : DecisionType → ℕ → Remedy
asked_captcha DecisionType.captcha expires = of_deadline expires
asked_captcha _ expires = absent

pub active_mask-le :
    (x : DecisionExpiry) (present now : ℕ) → present < 256 → active_mask x present now ≤ present
unfolding active_mask
active_mask-le x p now h =
    ground (arith, bit_and-not_one p h, bit_and-not_two p h, bit_and-not_two (bit_and p 254))

pub or_bit-lt : (dt : DecisionType) (p : ℕ) → p < 4 → bit_or p (to_bit dt) < 4
unfolding to_bit
or_bit-lt DecisionType.ban p h = omega (arith, bit_or-one p (omega arith))
or_bit-lt DecisionType.captcha p h = omega (arith, bit_or-two p (omega arith))
or_bit-lt unknown p h = omega (arith, bit_or_zero p (omega arith))

pub to_bit-lt : (dt : DecisionType) → to_bit dt < 4
unfolding to_bit
to_bit-lt DecisionType.ban = omega arith
to_bit-lt DecisionType.captcha = omega arith
to_bit-lt unknown = omega arith

pub prune_expired-le :
    (e : ShmHashEntry) (now : ℕ)
    → e.decision_types < 256
    → (prune_expired e now).decision_types ≤ e.decision_types
unfolding prune_expired prune_inactive
prune_expired-le e now h = active_mask-le e.expires e.decision_types now h

-- A pruned entry holds what is left of each remediation.
pub prune_expired-at :
    (e : ShmHashEntry) (now : ℕ)
    → e.decision_types < 256
    → (ban_at (prune_expired e now) ≡ at (ban_at e) now)
      × (captcha_at (prune_expired e now) ≡ at (captcha_at e) now)
unfolding prune_expired
prune_expired-at e now h = prune_inactive-at e.expires e.decision_types now h

-- Where no bit is left after pruning, neither remediation is.
pub dead-absent :
    (e : ShmHashEntry) (now : ℕ)
    → e.decision_types < 256
    → has_decisions (prune_expired e now) ≡ false
    → (at (ban_at e) now ≡ absent) × (at (captcha_at e) now ≡ absent)
dead-absent e now h dead =
    let (b, c) = prune_expired-at e now h in
    let none_left : (prune_expired e now).decision_types ≡ 0 =
      unfold has_decisions in ground arith in
    (sym b ∙ rw none_left, sym c ∙ rw none_left)

join-absent : (r : Remedy) → join r absent ≡ r
join-absent absent = refl
join-absent Remedy.unlimited = refl
join-absent (Remedy.until d) = refl

-- Merging a decision joins what it asks for to each remediation.
pub merge-asked :
    (x : DecisionExpiry) (p expires : ℕ) (dt : DecisionType)
    → p < 256
    → (ban_of (merge x p (to_bit dt) expires) (bit_or p (to_bit dt))
        ≡ join (ban_of x p) (asked_ban dt expires))
      × (captcha_of (merge x p (to_bit dt) expires) (bit_or p (to_bit dt))
          ≡ join (captcha_of x p) (asked_captcha dt expires))
unfolding to_bit
merge-asked x p expires DecisionType.ban h =
    let (b, c, _, _) = merge-join x p expires h in (b, c ∙ sym (join-absent (captcha_of x p)))
merge-asked x p expires DecisionType.captcha h =
    let (_, _, c, b) = merge-join x p expires h in (b ∙ sym (join-absent (ban_of x p)), c)
merge-asked x p expires unknown h =
    rw (bit_or_zero p h)
      (unfold merge in (sym (join-absent (ban_of x p)), sym (join-absent (captcha_of x p))))

-- What removing a remediation makes of the entry's ban and of its captcha.
abbrev pub keep_ban : DecisionType → Remedy → Remedy
keep_ban DecisionType.ban r = absent
keep_ban _ r = r

abbrev pub keep_captcha : DecisionType → Remedy → Remedy
keep_captcha DecisionType.captcha r = absent
keep_captcha _ r = r

-- Removing a remediation leaves the other.
pub remove_decision_type-absent :
    (e : ShmHashEntry) (dt : DecisionType)
    → e.decision_types < 256
    → (ban_at (remove_decision_type e dt) ≡ keep_ban dt (ban_at e))
      × (captcha_at (remove_decision_type e dt) ≡ keep_captcha dt (captcha_at e))
      × ((remove_decision_type e dt).decision_types ≤ e.decision_types)
unfolding remove_decision_type clear_bit to_bit
remove_decision_type-absent e DecisionType.ban h =
    ground (arith, not_one_bits e.decision_types h, bit_and-not_one e.decision_types h)
remove_decision_type-absent e DecisionType.captcha h =
    ground (arith, not_two_bits e.decision_types h, bit_and-not_two e.decision_types h)
remove_decision_type-absent e unknown h = ground (arith, bit_and_255 e.decision_types h)

-- An entry with no bits but the two of the remediations answers a ban while its ban is live, else
-- a captcha while its captcha is live, and counts as expired when neither is.
pub decision_type_at-is_live :
    (e : ShmHashEntry) (now : ℕ)
    → e.decision_types < 4
    → (decision_type_at e now ≡ (
        if is_live (ban_at e) now
        then DecisionType.ban
        else if is_live (captcha_at e) now
        then DecisionType.captcha
        else unknown))
      × (is_expired_at e now
          ≡ (if is_live (ban_at e) now then false else not (is_live (captcha_at e) now)))
unfolding decision_type_at is_expired_at from_bitmask
decision_type_at-is_live e now h = ground (
  arith,
  active_mask-is_live e.expires e.decision_types now,
  two_bits-zero (active_mask e.expires e.decision_types now),
  active_mask-le e.expires e.decision_types now,
  zero-two_bits,
)
