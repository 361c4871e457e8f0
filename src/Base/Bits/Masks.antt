-- ===== src/Base/Bits/Masks.antt =====
-- `&` with a mask of leading ones, at every width: it clears the low bits.
use mathlib.Core.Path.{◌≡◌}
use native.Mathlib.Omega.{arith}
use native.Mathlib.Nat.{pow-suc, one-le-pow, div-div-eq-div-mul}
use Prim.Native.Nat.{ℕ, zero, suc, ◌-◌, ◌*◌, ◌/◌, ◌^◌, ◌≤◌, ◌<◌, bit_and}
use ngx_http_crowdsec_module.Base.Bits.{bit_and_step, bit_and-zero}

pow_suc_two : (k : ℕ) → 2 ^ suc k ≡ 2 * 2 ^ k
pow_suc_two k = omega (arith, pow-suc 2 k)

-- A mask of `j` ones keeps a number of at most `j` bits.
pub bit_and_ones : (j a : ℕ) → a < 2 ^ j → bit_and a (2 ^ j - 1) ≡ a
bit_and_ones zero a h = ground (arith, bit_and-zero a)
bit_and_ones (suc j) a h = ground (
  arith,
  pow_suc_two j,
  one-le-pow j 2,
  bit_and_step a (2 ^ suc j - 1),
  bit_and_ones j (a / 2) (omega (arith, pow_suc_two j)),
)

-- `a / 2 ^ k * 2 ^ k`, one bit at a time.
clear_low-suc : (k a : ℕ) → a / 2 ^ suc k * 2 ^ suc k ≡ 2 * (a / 2 / 2 ^ k * 2 ^ k)
clear_low-suc k a = rw (pow_suc_two k, div-div-eq-div-mul a 2 (2 ^ k)) (omega arith)

pub bit_and_prefix : (k w a : ℕ) → k ≤ w → a < 2 ^ w → bit_and a (2 ^ w - 2 ^ k) ≡ a / 2 ^ k * 2 ^ k
bit_and_prefix zero w a h lt = ground (arith, bit_and_ones w a lt)
bit_and_prefix (suc k) zero a h lt = absurd (omega arith)
bit_and_prefix (suc k) (suc w) a h lt = ground (
  arith,
  pow_suc_two k,
  pow_suc_two w,
  one-le-pow k 2,
  bit_and_step a (2 ^ suc w - 2 ^ suc k),
  clear_low-suc k a,
  bit_and_prefix k w (a / 2) (omega arith) (omega (arith, pow_suc_two w)),
)
