-- ===== src/Base/Bits.antt =====
-- Facts about `&` and `|` at variables: bit tests on a byte by evaluation, and prefix masks at
-- every width.
pub mod Masks
use mathlib.Core.Path.{◌≡◌, refl}
use mathlib.Core.Bool.{Bool, true, false}
use native.Mathlib.Omega.{arith}
use Prim.Native.Nat.{
  ℕ, zero, suc, ◌+◌, ◌-◌, ◌*◌, ◌/◌, ◌%◌, ◌≤◌, ◌<◌, min, bit_and, bit_or, digits, bit_and-bitwise,
}
use ngx_http_crowdsec_module.Base.Tests.{◌==◌, ==_iff, if◌then◌else◌}

-- Does the test hold of every number below the bound?
checked_to : (ℕ → Bool) → ℕ → Bool
checked_to p zero = true
checked_to p (suc bound) = if p bound then checked_to p bound else false

from_check : (p : ℕ → Bool) (bound i : ℕ) → i < bound → checked_to p bound ≡ true → p i ≡ true
unfolding checked_to
from_check p (suc bound) i below ok = ground (arith, from_check p bound i)
from_check p zero i below ok = elim below [ ]

-- The definition behind `bit_and`, on fuel for the first argument's digits.
abbrev conj : ℕ → ℕ → ℕ → ℕ
conj fuel x y = digits (λ z. 0) min fuel x y

conj_wide : (x y total fuel : ℕ) → fuel ≤ total → x ≤ fuel → conj total x y ≡ conj fuel x y
conj_wide zero y (suc total) (suc fuel) le enough = refl
conj_wide zero y (suc total) zero le enough = refl
conj_wide zero y zero fuel le enough = let none_left : fuel ≡ 0 = omega arith in rw none_left
conj_wide (suc x) y (suc total) (suc fuel) le enough =
    let rest = conj_wide (suc x / 2) (y / 2) total fuel (omega arith) (omega arith) in
    omega (arith, rest)
conj_wide (suc x) y total zero le enough = elim enough [ ]
conj_wide (suc x) y zero (suc fuel) le enough = elim le [ ]

conj_zero : (fuel x : ℕ) → conj fuel x 0 ≡ 0
conj_zero (suc fuel) (suc x) = omega (arith, conj_zero fuel (suc x / 2))
conj_zero (suc fuel) zero = refl
conj_zero zero x = refl

-- The lowest digits and the rest.
pub bit_and_step : (x y : ℕ) → bit_and x y ≡ min (x % 2) (y % 2) + 2 * bit_and (x / 2) (y / 2)
bit_and_step (suc x) y =
    let half = suc x / 2 in
    let same = conj_wide half (y / 2) x half (omega arith) (omega arith) in
    omega (arith, same, bit_and-bitwise half (y / 2), bit_and-bitwise (suc x) y)
bit_and_step zero y = omega (arith, bit_and-bitwise 0 (y / 2), bit_and-bitwise 0 y)

pub bit_and-zero : (x : ℕ) → bit_and x 0 ≡ 0
bit_and-zero x = omega (arith, conj_zero x x, bit_and-bitwise x 0)

pub zero-bit_and_eq : (y : ℕ) → bit_and 0 y ≡ 0
zero-bit_and_eq y = omega (arith, bit_and-bitwise 0 y)

-- `x & 1` and `x & 2`
pub bit_and-one : (x : ℕ) → bit_and x 1 ≡ x % 2
bit_and-one x = omega (arith, bit_and-zero (x / 2), bit_and_step x 1)

pub bit_and-two : (x : ℕ) → bit_and x 2 ≡ x / 2 % 2 * 2
bit_and-two x = omega (arith, bit_and-one (x / 2), bit_and_step x 2)

clear_one_table : checked_to (λ x. bit_and x 254 == x - x % 2) 256 ≡ true
unfolding checked_to
clear_one_table = refl

clear_two_table : checked_to (λ x. bit_and x 253 == x - x / 2 % 2 * 2) 256 ≡ true
unfolding checked_to
clear_two_table = refl

set_one_table : checked_to (λ x. bit_or x 1 == x + 1 - x % 2) 256 ≡ true
unfolding checked_to
set_one_table = refl

set_two_table : checked_to (λ x. bit_or x 2 == x + 2 - x / 2 % 2 * 2) 256 ≡ true
unfolding checked_to
set_two_table = refl

-- `x & !1`, `x & !2`, `x | 1` and `x | 2` on a `u8`
pub bit_and-not_one : (x : ℕ) → x < 256 → bit_and x 254 ≡ x - x % 2
bit_and-not_one x h = (==_iff _ _).0 (from_check _ 256 x h clear_one_table)

pub bit_and-not_two : (x : ℕ) → x < 256 → bit_and x 253 ≡ x - x / 2 % 2 * 2
bit_and-not_two x h = (==_iff _ _).0 (from_check _ 256 x h clear_two_table)

pub bit_or-one : (x : ℕ) → x < 256 → bit_or x 1 ≡ x + 1 - x % 2
bit_or-one x h = (==_iff _ _).0 (from_check _ 256 x h set_one_table)

pub bit_or-two : (x : ℕ) → x < 256 → bit_or x 2 ≡ x + 2 - x / 2 % 2 * 2
bit_or-two x h = (==_iff _ _).0 (from_check _ 256 x h set_two_table)

or_zero_table : checked_to (λ x. bit_or x 0 == x) 256 ≡ true
unfolding checked_to
or_zero_table = refl

pub bit_or_zero : (x : ℕ) → x < 256 → bit_or x 0 ≡ x
bit_or_zero x h = (==_iff _ _).0 (from_check _ 256 x h or_zero_table)

-- What each of the four operations does to the two low bits.
pub or_one_bits :
    (p : ℕ) → p < 256 → (bit_and (bit_or p 1) 1 ≡ 1) × (bit_and (bit_or p 1) 2 ≡ bit_and p 2)
or_one_bits p h =
    omega (arith, bit_or-one p h, bit_and-one (bit_or p 1), bit_and-two (bit_or p 1), bit_and-two p)

pub or_two_bits :
    (p : ℕ) → p < 256 → (bit_and (bit_or p 2) 2 ≡ 2) × (bit_and (bit_or p 2) 1 ≡ bit_and p 1)
or_two_bits p h =
    omega (arith, bit_or-two p h, bit_and-one (bit_or p 2), bit_and-two (bit_or p 2), bit_and-one p)

pub not_one_bits :
    (p : ℕ)
    → p < 256
    → (bit_and (bit_and p 254) 1 ≡ 0)
      × (bit_and (bit_and p 254) 2 ≡ bit_and p 2)
      × (bit_and p 254 < 256)
not_one_bits p h = omega (
  arith,
  bit_and-not_one p h,
  bit_and-one (bit_and p 254),
  bit_and-two (bit_and p 254),
  bit_and-two p,
)

pub not_two_bits :
    (p : ℕ)
    → p < 256
    → (bit_and (bit_and p 253) 2 ≡ 0)
      × (bit_and (bit_and p 253) 1 ≡ bit_and p 1)
      × (bit_and p 253 < 256)
not_two_bits p h = omega (
  arith,
  bit_and-not_two p h,
  bit_and-one (bit_and p 253),
  bit_and-two (bit_and p 253),
  bit_and-one p,
)

and_255_table : checked_to (λ x. bit_and x 255 == x) 256 ≡ true
unfolding checked_to
and_255_table = refl

pub bit_and_255 : (x : ℕ) → x < 256 → bit_and x 255 ≡ x
bit_and_255 x h = (==_iff _ _).0 (from_check _ 256 x h and_255_table)

-- A mask with no bit but the two low ones is zero if both are clear.
pub two_bits-zero : (p : ℕ) → p < 4 → bit_and p 1 ≡ 0 → bit_and p 2 ≡ 0 → p ≡ 0
two_bits-zero p h a b = omega (arith, bit_and-one p, bit_and-two p)

pub zero-two_bits : (bit_and 0 1 ≡ 0) × (bit_and 0 2 ≡ 0)
zero-two_bits = (refl, refl)
