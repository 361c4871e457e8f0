-- ===== src/Shm/Hash.antt =====
-- src/shm.rs: the FNV-1a hashes of addresses and of CIDR keys. A hash is a `u32`; the values 0 and 1
-- mark slots and are not hashes.
pub mod Laws
use ngx_http_crowdsec_module.Base.{
  ℕ, zero, suc, ◌+◌, ◌*◌, ◌%◌, List, [], ◌∷◌, ltb, ◌==◌, if◌then◌else◌, get_or, bit_xor,
}
use ngx_http_crowdsec_module.Base.Words.{u32_mod}
use ngx_http_crowdsec_module.Net.{IpAddr, v4, v6}
use ngx_http_crowdsec_module.Shm.Entry.{addr_len}

abbrev fnv_offset : ℕ
fnv_offset = 2166136261

abbrev fnv_prime : ℕ
fnv_prime = 16777619

-- `hash ^= byte; hash = hash.wrapping_mul(FNV_PRIME)`
unfoldable pub fnv_byte : ℕ → ℕ → ℕ
fnv_byte hash byte = bit_xor hash byte * fnv_prime % u32_mod

unfoldable pub fnv_bytes : ℕ → List ℕ → ℕ
unfolding fnv_byte
fnv_bytes hash [] = hash
fnv_bytes hash (x ∷ xs) = fnv_bytes (fnv_byte hash x) xs

-- The two reserved values are moved out of the way; `+` does not overflow there.
abbrev pub not_reserved : ℕ → ℕ
not_reserved hash = if ltb hash 2 then hash + 2 else hash

unfoldable pub hash_ip : IpAddr → ℕ
hash_ip (v4 o) = not_reserved (fnv_bytes (bit_xor fnv_offset 4) o)
hash_ip (v6 o) = not_reserved (fnv_bytes (bit_xor fnv_offset 6) o)

-- `for i in lo..lo + n`, where a missing byte counts as 0.
unfoldable pub fnv_network : ℕ → ℕ → ℕ → List ℕ → ℕ
fnv_network zero i hash network = hash
fnv_network (suc n) i hash network =
    fnv_network n (suc i) (fnv_byte hash (get_or network i 0)) network

unfoldable pub hash_cidr : ℕ → ℕ → List ℕ → ℕ
unfolding fnv_network fnv_byte
hash_cidr family prefix_len network =
    let keyed = fnv_byte (fnv_byte fnv_offset family) prefix_len in
    not_reserved (fnv_network (addr_len family) 0 keyed network)
