-- ===== src/DecisionType/Laws.antt =====
-- The encodings of `DecisionType` agree with one another, and the fallback only ever decides about
-- the types that the module does not know.
use ngx_http_crowdsec_module.Base.{ℕ, ◌≡◌, ◌≢◌, ◌↔◌, refl, ◌<◌, none, some, bit_or, arith}
use ngx_http_crowdsec_module.Base.Bits.{or_one_bits, or_two_bits, bit_or_zero}
use ngx_http_crowdsec_module.Base.Text.{Text}
use ngx_http_crowdsec_module.DecisionType.{
  DecisionType, unknown, FallbackRemediation, from_str, from_u8, to_u8, to_bit, from_bitmask,
  resolve_unknown_type, allow,
}

-- A type survives the byte that stores it.
pub from_u8-to_u8 : (d : DecisionType) → from_u8 (to_u8 d) ≡ d
unfolding from_u8 to_u8
from_u8-to_u8 DecisionType.ban = refl
from_u8-to_u8 DecisionType.captcha = refl
from_u8-to_u8 unknown = refl

-- The stronger of two remediations: a ban before a captcha before none.
abbrev pub stronger : DecisionType → DecisionType → DecisionType
stronger DecisionType.ban e = DecisionType.ban
stronger DecisionType.captcha DecisionType.ban = DecisionType.ban
stronger DecisionType.captcha _ = DecisionType.captcha
stronger unknown e = e

-- Adding a type's bit to a mask of one byte makes the mask read as the stronger of that type and
-- what it read before.
pub from_bitmask-or :
    (d : DecisionType) (bits : ℕ)
    → bits < 256
    → from_bitmask (bit_or bits (to_bit d)) ≡ stronger d (from_bitmask bits)
unfolding from_bitmask to_bit
from_bitmask-or DecisionType.ban bits h = ground (arith, or_one_bits bits h)
from_bitmask-or DecisionType.captcha bits h = ground (arith, or_two_bits bits h)
from_bitmask-or unknown bits h = rw (bit_or_zero bits h)

-- A type is dropped exactly if it is not known and the fallback is to allow, what is stored is
-- never unknown, and a known type is kept.
pub resolve_unknown_type_cases :
    (f : FallbackRemediation) (s : Text)
    → ((resolve_unknown_type f s ≡ none) ↔ ((from_str s ≡ unknown) × (f ≡ allow)))
      × (resolve_unknown_type f s ≢ some unknown)
      × (from_str s ≢ unknown → resolve_unknown_type f s ≡ some (from_str s))
unfolding resolve_unknown_type
resolve_unknown_type_cases allow s = ground arith
resolve_unknown_type_cases _ s = ground arith
