-- ===== src/Net.antt =====
-- IP addresses as `std::net` has them, and their network parts: `apply_ipv4_mask`,
-- `apply_ipv6_mask` and `cidr_params_valid` of src/shm.rs, and `canonicalize_ip` of src/realip.rs.
pub mod Mask
pub mod Cidr
use ngx_http_crowdsec_module.Base.{
  ℕ, zero, suc, ◌+◌, ◌-◌, ◌*◌, ◌/◌, ◌%◌, ◌^◌, ◌≡◌, Bool, true, false, ◌&&◌, List, [], ◌∷◌, ◌++◌,
  ltb, leb, ◌==◌, if◌then◌else◌, length, get_or, set, take, drop, replicate, bit_and, bytes_eq,
  AreBytes,
}

-- The octets in network order.
pub data IpAddr : Type 0 where
  v4 : List ℕ → IpAddr
  v6 : List ℕ → IpAddr

abbrev pub IsIp : IpAddr → Type 0
IsIp (v4 o) = (length o ≡ 4) × AreBytes o
IsIp (v6 o) = (length o ≡ 16) × AreBytes o

-- `from_be_bytes` and `to_be_bytes`; the second takes the number of bytes.
unfoldable pub from_be_bytes : List ℕ → ℕ
from_be_bytes [] = 0
from_be_bytes (x ∷ xs) = x * 256 ^ length xs + from_be_bytes xs

unfoldable pub to_be_bytes : ℕ → ℕ → List ℕ
to_be_bytes zero n = []
to_be_bytes (suc k) n = n / 256 ^ k % 256 ∷ to_be_bytes k n

-- `!x` on a word of `w` bits.
abbrev pub not_bits : ℕ → ℕ → ℕ
not_bits w x = 2 ^ w - 1 - x

unfoldable pub apply_ipv4_mask : List ℕ → ℕ → List ℕ
apply_ipv4_mask addr prefix_len =
    if prefix_len == 0
    then replicate 4 0
    else if leb 32 prefix_len
    then addr
    else let mask = not_bits 32 (2 ^ (32 - prefix_len) - 1) in
      to_be_bytes 4 (bit_and (from_be_bytes addr) mask)

unfoldable pub apply_ipv6_mask : List ℕ → ℕ → List ℕ
apply_ipv6_mask addr prefix_len =
    if prefix_len == 0
    then replicate 16 0
    else if leb 128 prefix_len
    then addr
    else let full_bytes = prefix_len / 8 in
      let remaining_bits = prefix_len % 8 in
      let result = take full_bytes addr ++ replicate (16 - full_bytes) 0 in
      if ltb 0 remaining_bits && ltb full_bytes 16
      then (let mask = not_bits 8 (2 ^ (8 - remaining_bits) - 1) in
          set result full_bytes (bit_and (get_or addr full_bytes 0) mask))
      else result

unfoldable pub cidr_params_valid : ℕ → ℕ → List ℕ → Bool
cidr_params_valid family prefix_len network =
    if family == 4
    then leb prefix_len 32 && leb 4 (length network)
    else if family == 6
    then leb prefix_len 128 && leb 16 (length network)
    else false

-- The ten zero bytes and two `ff` bytes in front of an IPv4-mapped address.
abbrev pub mapped_prefix : List ℕ
mapped_prefix = replicate 10 0 ++ (255 ∷ 255 ∷ [])

-- `canonicalize_ip`, with `Ipv6Addr::to_ipv4_mapped`.
unfoldable pub canonicalize_ip : IpAddr → IpAddr
unfolding bytes_eq
canonicalize_ip (v4 o) = v4 o
canonicalize_ip (v6 o) = if bytes_eq (take 12 o) mapped_prefix then v4 (drop 12 o) else v6 o
