-- ===== src/Shm/Hash/Laws.antt =====
-- The hashes are words that no slot marker uses, and they see of a network only the bytes of its
-- family.
use ngx_http_crowdsec_module.Base.{
  ℕ, zero, suc, ◌+◌, ◌≤◌, ◌<◌, ◌≡◌, refl, ap, List, [], ◌∷◌, get_or, take, arith,
}
use ngx_http_crowdsec_module.Base.Words.{u32_mod}
use ngx_http_crowdsec_module.Net.{IpAddr, v4, v6}
use ngx_http_crowdsec_module.Shm.Entry.{addr_len}
use ngx_http_crowdsec_module.Shm.Hash.{
  fnv_byte, fnv_bytes, hash_ip, fnv_network, hash_cidr, not_reserved,
}

not_reserved_bounds : (h : ℕ) → h < u32_mod → (2 ≤ not_reserved h) × (not_reserved h < u32_mod)
not_reserved_bounds h lt = ground arith

fnv_bytes-lt : (xs : List ℕ) (h : ℕ) → h < u32_mod → fnv_bytes h xs < u32_mod
unfolding fnv_bytes
fnv_bytes-lt [] h lt = lt
fnv_bytes-lt (x ∷ xs) h lt = fnv_bytes-lt xs (fnv_byte h x) (unfold fnv_byte in omega arith)

fnv_network-lt : (n i h : ℕ) (network : List ℕ) → h < u32_mod → fnv_network n i h network < u32_mod
unfolding fnv_network
fnv_network-lt zero i h network lt = lt
fnv_network-lt (suc n) i h network lt =
    fnv_network-lt n (suc i) _ network (unfold fnv_byte in omega arith)

-- The hash of an address is a `u32` other than the two values that mark empty and deleted slots.
pub hash_ip_bounds : (ip : IpAddr) → (2 ≤ hash_ip ip) × (hash_ip ip < u32_mod)
unfolding hash_ip
hash_ip_bounds (v4 o) = not_reserved_bounds _ (fnv_bytes-lt o _ (omega arith))
hash_ip_bounds (v6 o) = not_reserved_bounds _ (fnv_bytes-lt o _ (omega arith))

-- So is that of a range.
pub hash_cidr_bounds :
    (family prefix_len : ℕ) (network : List ℕ)
    → (2 ≤ hash_cidr family prefix_len network) × (hash_cidr family prefix_len network < u32_mod)
unfolding hash_cidr
hash_cidr_bounds family prefix_len network =
    not_reserved_bounds _
      (fnv_network-lt (addr_len family) 0 _ network (unfold fnv_byte in omega arith))

get_or-take :
    (n i : ℕ) (xs ys : List ℕ) → i < n → take n xs ≡ take n ys → get_or xs i 0 ≡ get_or ys i 0
get_or-take zero i xs ys lt e = elim lt [ ]
get_or-take (suc n) i [] [] lt e = refl
get_or-take (suc n) i [] (y ∷ ys) lt e = cc
get_or-take (suc n) i (x ∷ xs) [] lt e = cc
get_or-take (suc n) zero (x ∷ xs) (y ∷ ys) lt e = cc
get_or-take (suc n) (suc i) (x ∷ xs) (y ∷ ys) lt e = get_or-take n i xs ys (omega arith) (cc)

fnv_network-take :
    (n i len h : ℕ) (xs ys : List ℕ)
    → i + n ≤ len
    → take len xs ≡ take len ys
    → fnv_network n i h xs ≡ fnv_network n i h ys
unfolding fnv_network
fnv_network-take zero i len h xs ys le e = refl
fnv_network-take (suc n) i len h xs ys le e =
    rw (get_or-take len i xs ys (omega arith) e)
      (fnv_network-take n (suc i) len _ xs ys (omega arith) e)

-- Two networks with the same leading bytes, as many as the family has, have the same hash.
pub hash_cidr-take :
    (family prefix_len : ℕ) (xs ys : List ℕ)
    → take (addr_len family) xs ≡ take (addr_len family) ys
    → hash_cidr family prefix_len xs ≡ hash_cidr family prefix_len ys
unfolding hash_cidr
hash_cidr-take family prefix_len xs ys e =
    ap not_reserved (fnv_network-take (addr_len family) 0 (addr_len family) _ xs ys (omega arith) e)
