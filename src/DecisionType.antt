-- ===== src/DecisionType.antt =====
-- src/shm.rs: `DecisionType`, with its encodings as a byte and as a bit of an entry's mask, and
-- src/config.rs: `FallbackRemediation`, which maps the types that a stream may name.
pub mod Laws
use ngx_http_crowdsec_module.Base.{
  ℕ, Bool, true, false, not, ◌==◌, if◌then◌else◌, Option, none, some, map, bit_and,
}
use ngx_http_crowdsec_module.Base.Text.{Text, codes, eq_ignore_ascii_case, trim, to_ascii_lower}

pub data DecisionType : Type 0 where
  ban captcha unknown : DecisionType

pub data FallbackRemediation : Type 0 where
  allow ban captcha : FallbackRemediation

unfoldable pub from_str : Text → DecisionType
unfolding eq_ignore_ascii_case
from_str s =
    if eq_ignore_ascii_case s (codes "ban")
    then DecisionType.ban
    else if eq_ignore_ascii_case s (codes "captcha")
    then DecisionType.captcha
    else unknown

unfoldable pub from_u8 : ℕ → DecisionType
from_u8 v = if v == 1 then DecisionType.ban else if v == 2 then DecisionType.captcha else unknown

-- `self as u8`
unfoldable pub to_u8 : DecisionType → ℕ
to_u8 DecisionType.ban = 1
to_u8 DecisionType.captcha = 2
to_u8 unknown = 255

unfoldable pub to_bit : DecisionType → ℕ
to_bit DecisionType.ban = 1
to_bit DecisionType.captcha = 2
to_bit unknown = 0

-- The ban comes before the captcha.
unfoldable pub from_bitmask : ℕ → DecisionType
from_bitmask bits =
    if not (bit_and bits 1 == 0)
    then DecisionType.ban
    else if not (bit_and bits 2 == 0)
    then DecisionType.captcha
    else unknown

-- `==` on the derived `PartialEq`.
abbrev pub is_unknown : DecisionType → Bool
is_unknown unknown = true
is_unknown _ = false

abbrev on_unknown : FallbackRemediation → Option DecisionType
on_unknown allow = none
on_unknown FallbackRemediation.ban = some DecisionType.ban
on_unknown FallbackRemediation.captcha = some DecisionType.captcha

-- A type that the stream names: a known one is kept, another one goes by the configuration.
unfoldable pub resolve_unknown_type : FallbackRemediation → Text → Option DecisionType
unfolding from_str
resolve_unknown_type f raw_type =
    if not (is_unknown (from_str raw_type)) then some (from_str raw_type) else on_unknown f
