-- ===== src/Net/Mask.antt =====
-- The network part of an address keeps its leading bits and clears the others.
use native.Mathlib.Nat.{
  pow-suc, one-le-pow, div-div-eq-div-mul, div-add-mod, mod-eq-sub-mul-div, div-mul-le_self,
}
use ngx_http_crowdsec_module.Base.{
  ℕ, zero, suc, ◌+◌, ◌-◌, ◌*◌, ◌/◌, ◌%◌, ◌^◌, ◌≤◌, ◌<◌, ◌≡◌, refl, ap, false, List, [], ◌∷◌, leb,
  ◌==◌, length, replicate, bit_and, AreBytes, arith, inl, inr, Bool-cases,
}
use ngx_http_crowdsec_module.Base.Bits.Masks.{bit_and_prefix}
use ngx_http_crowdsec_module.Net.{from_be_bytes, to_be_bytes, not_bits, apply_ipv4_mask}

pub from_be_bytes-lt : (o : List ℕ) → AreBytes o → from_be_bytes o < 256 ^ length o
unfolding from_be_bytes
from_be_bytes-lt [] h = omega arith
from_be_bytes-lt (x ∷ xs) h = grind (arith, pow-suc 256 (length xs), from_be_bytes-lt xs h.1)

pub length-to_be_bytes : (k n : ℕ) → length (to_be_bytes k n) ≡ k
unfolding to_be_bytes
length-to_be_bytes zero n = refl
length-to_be_bytes (suc k) n = ap suc (length-to_be_bytes k n)

mod-mul : (n p : ℕ) → n / p % 256 * p + n % p ≡ n % (p * 256)
mod-mul n p = omega (
  arith,
  div-add-mod n p,
  mod-eq-sub-mul-div n (p * 256),
  div-div-eq-div-mul n p 256,
  ap (λ (t : ℕ). p * t) (div-add-mod (n / p) 256),
  ap (λ (t : ℕ). p * 256 * t) (div-div-eq-div-mul n p 256),
)

-- The value that `k` bytes keep.
pub from_be_bytes-to_be_bytes : (k n : ℕ) → from_be_bytes (to_be_bytes k n) ≡ n % 256 ^ k
unfolding from_be_bytes to_be_bytes
from_be_bytes-to_be_bytes zero n = omega arith
from_be_bytes-to_be_bytes (suc k) n =
    rw (length-to_be_bytes k n, from_be_bytes-to_be_bytes k n, pow-suc 256 k) (mod-mul n (256 ^ k))

-- The mask of `w` bits that the source builds keeps all but the low `k` bits.
pub prefix_mask :
    (k w a : ℕ) → k ≤ w → a < 2 ^ w → bit_and a (not_bits w (2 ^ k - 1)) ≡ a / 2 ^ k * 2 ^ k
prefix_mask k w a h lt =
    let e : not_bits w (2 ^ k - 1) ≡ 2 ^ w - 2 ^ k = omega (arith, one-le-pow k 2) in
    rw e (bit_and_prefix k w a h lt)

from_be_bytes_zeros : (n : ℕ) → from_be_bytes (replicate n 0) ≡ 0
unfolding from_be_bytes
from_be_bytes_zeros zero = refl
from_be_bytes_zeros (suc n) = omega (arith, from_be_bytes_zeros n)

-- For a prefix length of at most 32, the network part of four bytes, read as a number, is the
-- number that they stand for with its low 32 - prefix_len bits cleared.
pub apply_ipv4_mask-value :
    (addr : List ℕ) (prefix_len : ℕ)
    → length addr ≡ 4
    → AreBytes addr
    → prefix_len ≤ 32
    → from_be_bytes (apply_ipv4_mask addr prefix_len)
      ≡ from_be_bytes addr / 2 ^ (32 - prefix_len) * 2 ^ (32 - prefix_len)
unfolding apply_ipv4_mask
apply_ipv4_mask-value addr zero len bytes h =
    let lt : from_be_bytes addr < 2 ^ 32 = rw len at (from_be_bytes-lt addr bytes) in
    omega (arith, from_be_bytes_zeros 4)
apply_ipv4_mask-value addr (suc p) len bytes h =
    let a = from_be_bytes addr in
    let k = 32 - suc p in
    let lt : a < 2 ^ 32 = rw len at (from_be_bytes-lt addr bytes) in
    let z : (suc p == 0) ≡ false = ground arith in
    let m : bit_and a (not_bits 32 (2 ^ k - 1)) ≡ a / 2 ^ k * 2 ^ k =
      prefix_mask k 32 a (omega arith) lt in
    elim (Bool-cases (leb 32 (suc p))) [
      | inl b ↦ let e : 32 - suc p ≡ 0 = ground arith in rw (z, b, e) (omega arith)
      | inr b ↦ rw (z, b, m, from_be_bytes-to_be_bytes) (omega (arith, div-mul-le_self a (2 ^ k)))
    ]
