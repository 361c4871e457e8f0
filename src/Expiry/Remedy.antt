-- ===== src/Expiry/Remedy.antt =====
-- What an entry promises of one remediation, whatever the encoding: it is absent, or it lasts for
-- ever, or it lasts until a deadline.
use ngx_http_crowdsec_module.Base.{ℕ, Bool, true, false, not, ◌==◌, if◌then◌else◌, bit_and}
use ngx_http_crowdsec_module.Base.Words.{i64_ge, i64_max_of}
use ngx_http_crowdsec_module.Expiry.{DecisionExpiry}

pub data Remedy : Type 0 where
  absent unlimited : Remedy
  until : ℕ → Remedy

-- How two decisions for one remediation combine: the longer one counts.
abbrev pub join : Remedy → Remedy → Remedy
join absent r = r
join unlimited r = unlimited
join (until a) absent = until a
join (until a) unlimited = unlimited
join (until a) (until b) = until (i64_max_of a b)

abbrev pub is_live : Remedy → ℕ → Bool
is_live absent now = false
is_live unlimited now = true
is_live (until d) now = not (i64_ge now d)

-- The remediation that a new decision asks for.
abbrev pub of_deadline : ℕ → Remedy
of_deadline d = if d == 0 then unlimited else until d

abbrev pub ban_of : DecisionExpiry → ℕ → Remedy
ban_of e present = if bit_and present 1 == 0 then absent else of_deadline e.ban

abbrev pub captcha_of : DecisionExpiry → ℕ → Remedy
captcha_of e present = if bit_and present 2 == 0 then absent else of_deadline e.captcha

-- A remediation at a time: gone once its deadline has passed.
abbrev pub at : Remedy → ℕ → Remedy
at r now = if is_live r now then r else absent
