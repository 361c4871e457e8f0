-- ===== src/RealIp/Trust.antt =====
-- Which addresses a parsed entry of `crowdsec_trusted_proxies` contains.
use native.Mathlib.Nat.{
  div-mul-le_self, one-le-pow, pow-le-pow_right, mod-eq_of_lt, mul-div_left, add-mul-mod_self_left,
  eq_of_mul-eq-mul_right,
}
use ngx_http_crowdsec_module.Base.{
  ℕ, zero, suc, ◌+◌, ◌-◌, ◌*◌, ◌/◌, ◌%◌, ◌^◌, ◌≤◌, ◌<◌, ◌≡◌, ◌↔◌, refl, ap, sym, inl, inr, Bool,
  true, false, ◌==◌, ==_iff, ◌⊎◌, none, some, List, [], ◌∷◌, if◌then◌else◌, length, drop, ◌∙◌,
  bit_and, arith, Option-cases, AreBytes,
}
use ngx_http_crowdsec_module.Base.Text.{Text, split_once, trim}
use ngx_http_crowdsec_module.Net.{IpAddr, v4, v6, IsIp, from_be_bytes, canonicalize_ip, not_bits}
use ngx_http_crowdsec_module.Net.Mask.{prefix_mask, from_be_bytes-lt}
use ngx_http_crowdsec_module.RealIp.{
  Parsers, TrustedCidr, cidr_v4, cidr_v6, ipv4_mask, ipv6_mask, cidr_of, cidr_of_host, parse,
  parse_trimmed, contains, contains_canonical,
}

-- Two addresses of one family with the same leading `plen` bits.
abbrev pub SharesPrefix : ℕ → IpAddr → IpAddr → Type 0
SharesPrefix plen (v4 o) (v4 a) =
    from_be_bytes a / 2 ^ (32 - plen) ≡ from_be_bytes o / 2 ^ (32 - plen)
SharesPrefix plen (v6 o) (v6 a) =
    from_be_bytes a / 2 ^ (128 - plen) ≡ from_be_bytes o / 2 ^ (128 - plen)
SharesPrefix plen _ _ = ⊥

abbrev pub width : IpAddr → ℕ
width (v4 _) = 32
width (v6 _) = 128

shifted_value : (w k : ℕ) → 1 ≤ k → k ≤ w → (w - 1) * k % w ≡ w - k
shifted_value w zero one le = absurd (omega arith)
shifted_value zero (suc k) one le = absurd (omega arith)
shifted_value (suc w) (suc k) one le =
    let e : (suc w - 1) * suc k ≡ w - k + suc w * k = grind arith in
    rw e (
      omega (
        arith,
        add-mul-mod_self_left (w - k) (suc w) k,
        mod-eq_of_lt {n = w - k} {m = suc w} (omega arith),
      ))

-- What is left of a mask of ones that is shifted out of its word.
shifted_mask : (w k : ℕ) → k ≤ w → (2 ^ w - 1) * 2 ^ k % 2 ^ w ≡ not_bits w (2 ^ k - 1)
shifted_mask w k h =
    let one = one-le-pow k 2 (omega arith) in
    let le = pow-le-pow_right {n = 2} (omega arith) h in
    omega (arith, shifted_value (2 ^ w) (2 ^ k) one le)

-- The bits under the mask agree exactly if the leading bits do.
masked_iff :
    (w k a b m : ℕ)
    → k ≤ w
    → a < 2 ^ w
    → b < 2 ^ w
    → m ≡ not_bits w (2 ^ k - 1)
    → ((bit_and a m == bit_and (bit_and b m) m) ≡ true) ↔ (a / 2 ^ k ≡ b / 2 ^ k)
masked_iff w k a b m h la lb e =
    let pos : 0 < 2 ^ k = one-le-pow k 2 (omega arith) in
    let kept = mul-div_left (b / 2 ^ k) pos in
    let small = div-mul-le_self b (2 ^ k) in
    let same = eq_of_mul-eq-mul_right (2 ^ k) pos (a / 2 ^ k) (b / 2 ^ k) in
    rw
      (
        e,
        prefix_mask k w a h la,
        prefix_mask k w b h lb,
        prefix_mask k w (b / 2 ^ k * 2 ^ k) h (omega (arith, small)),
        kept,
      )
      (ground (arith, same, ==_iff (a / 2 ^ k * 2 ^ k) (b / 2 ^ k * 2 ^ k)))

ipv4_mask-not_bits : (p : ℕ) → p ≤ 32 → ipv4_mask p ≡ not_bits 32 (2 ^ (32 - p) - 1)
unfolding ipv4_mask
ipv4_mask-not_bits zero h = refl
ipv4_mask-not_bits (suc p) h =
    let z : (suc p == 0) ≡ false = ground arith in rw z (shifted_mask 32 (32 - suc p) (omega arith))

ipv6_mask-not_bits : (p : ℕ) → p ≤ 128 → ipv6_mask p ≡ not_bits 128 (2 ^ (128 - p) - 1)
unfolding ipv6_mask
ipv6_mask-not_bits zero h = refl
ipv6_mask-not_bits (suc p) h =
    let z : (suc p == 0) ≡ false = ground arith in
    rw z (shifted_mask 128 (128 - suc p) (omega arith))

-- An entry that keeps the leading `p` bits of an address and has the mask for them.
abbrev entry : IpAddr → ℕ → TrustedCidr
entry (v4 o) p = cidr_v4 (bit_and (from_be_bytes o) (ipv4_mask p)) (ipv4_mask p)
entry (v6 o) p = cidr_v6 (bit_and (from_be_bytes o) (ipv6_mask p)) (ipv6_mask p)

entry-contains :
    (ip a : IpAddr) (p : ℕ)
    → p ≤ width ip
    → IsIp ip
    → IsIp a
    → (contains_canonical (entry ip p) a ≡ true) ↔ SharesPrefix p ip a
entry-contains (v4 o) (v4 a) p h (len, bytes) (len_a, bytes_a) =
    masked_iff 32 (32 - p) _ _ _ (omega arith) (rw len_a at (from_be_bytes-lt a bytes_a))
      (rw len at (from_be_bytes-lt o bytes)) (ipv4_mask-not_bits p h)
entry-contains (v6 o) (v6 a) p h (len, bytes) (len_a, bytes_a) =
    masked_iff 128 (128 - p) _ _ _ (omega arith) (rw len_a at (from_be_bytes-lt a bytes_a))
      (rw len at (from_be_bytes-lt o bytes)) (ipv6_mask-not_bits p h)
entry-contains (v4 o) (v6 a) p h i j = ground arith
entry-contains (v6 o) (v4 a) p h i j = ground arith

cidr_of-entry :
    (ip : IpAddr) (p : ℕ) (c : TrustedCidr)
    → cidr_of ip p ≡ some c
    → (p ≤ width ip) × (c ≡ entry ip p)
unfolding cidr_of
cidr_of-entry (v4 o) p c e = ground arith
cidr_of-entry (v6 o) p c e = ground arith

-- The mask of a host has all ones.
cidr_of_host-entry : (ip : IpAddr) → IsIp ip → cidr_of_host ip ≡ entry ip (width ip)
unfolding cidr_of_host
cidr_of_host-entry (v4 o) (len, bytes) =
    let lt : from_be_bytes o < 2 ^ 32 = rw len at (from_be_bytes-lt o bytes) in
    rw (ipv4_mask-not_bits 32 (omega arith)) (
      ap (λ n. cidr_v4 n (2 ^ 32 - 1))
        (omega (arith, prefix_mask 0 32 (from_be_bytes o) (omega arith) lt)))
cidr_of_host-entry (v6 o) (len, bytes) =
    let lt : from_be_bytes o < 2 ^ 128 = rw len at (from_be_bytes-lt o bytes) in
    rw (ipv6_mask-not_bits 128 (omega arith)) (
      ap (λ n. cidr_v6 n (2 ^ 128 - 1))
        (omega (arith, prefix_mask 0 128 (from_be_bytes o) (omega arith) lt)))

-- The address and the number of leading bits that an entry of the directive names.
abbrev pub Names : Parsers → Text → IpAddr → ℕ → Type 0
Names std s ip plen =
    ((ip_s : Text) × (plen_s : Text) × (split_once 47 s ≡ some (ip_s, plen_s))
      × (std.parse_ip (trim ip_s) ≡ some ip)
      × (std.parse_u32 (trim plen_s) ≡ some plen))
    ⊎ (split_once 47 s ≡ none) × (std.parse_ip s ≡ some ip) × (plen ≡ width ip)

abbrev pub GivesIps : Parsers → Type 0
GivesIps std = (t : Text) (ip : IpAddr) → std.parse_ip t ≡ some ip → IsIp ip

abbrev Parsed : Parsers → Text → TrustedCidr → Type 0
Parsed std t c =
    (ip : IpAddr) × (plen : ℕ) × Names std t ip plen
    × IsIp ip
    × (plen ≤ width ip)
    × (c ≡ entry ip plen)

parse_trimmed-Parsed :
    (std : Parsers) (t : Text) (c : TrustedCidr)
    → GivesIps std
    → parse_trimmed std t ≡ some c
    → Parsed std t c
parse_trimmed-Parsed std [] c ips e = absurd (ground arith)
parse_trimmed-Parsed std (x ∷ t) c ips e = elim (Option-cases (split_once 47 (x ∷ t))) [
  | inl no_slash ↦ elim (Option-cases (std.parse_ip (x ∷ t))) [
    | inl bad ↦ absurd (ground arith)
    | inr (ip, host) ↦
        let i = ips (x ∷ t) ip host in
        let c_is : cidr_of_host ip ≡ c = ground arith in
        (
          ip,
          width ip,
          inr (no_slash, host, refl),
          i,
          omega arith,
          sym c_is ∙ cidr_of_host-entry ip i,
        )
  ]
  | inr ((ip_s, plen_s), slash) ↦ elim (Option-cases (std.parse_ip (trim ip_s))) [
    | inl bad ↦ absurd (ground arith)
    | inr (ip, named) ↦ elim (Option-cases (std.parse_u32 (trim plen_s))) [
      | inl bad ↦ absurd (ground arith)
      | inr (plen, number) ↦
          let (le, c_is) = cidr_of-entry ip plen c (ground arith) in
          (ip, plen, inl (ip_s, plen_s, slash, named, number), ips (trim ip_s) ip named, le, c_is)
    ]
  ]
]

drop-AreBytes : (n : ℕ) (o : List ℕ) → AreBytes o → AreBytes (drop n o)
drop-AreBytes zero o h = h
drop-AreBytes (suc n) [] h = h
drop-AreBytes (suc n) (x ∷ o) (_, h) = drop-AreBytes n o h

length-drop : (n : ℕ) (o : List ℕ) → length (drop n o) ≡ length o - n
length-drop zero o = omega arith
length-drop (suc n) [] = omega arith
length-drop (suc n) (x ∷ o) = omega (arith, length-drop n o)

either-IsIp : (b : Bool) (x y : IpAddr) → IsIp x → IsIp y → IsIp (if b then x else y)
either-IsIp true x y i j = i
either-IsIp false x y i j = j

pub canonicalize_ip-IsIp : (ip : IpAddr) → IsIp ip → IsIp (canonicalize_ip ip)
unfolding canonicalize_ip
canonicalize_ip-IsIp (v4 o) h = h
canonicalize_ip-IsIp (v6 o) (len, bytes) =
    let shorter = length-drop 12 o in
    either-IsIp _ (v4 (drop 12 o)) (v6 o) (omega (arith, shorter), drop-AreBytes 12 o bytes)
      (len, bytes)

-- With an address parser that gives four or sixteen bytes, an entry of the trusted proxies that
-- parses names an address and a number of bits, at most its width, and contains an address exactly
-- if that, an IPv4-mapped one taken as IPv4, is of the same family and has the same leading bits.
pub parse-contains :
    (std : Parsers) (s : Text) (c : TrustedCidr) (a : IpAddr)
    → GivesIps std
    → parse std s ≡ some c
    → IsIp a
    → (ip : IpAddr) × (plen : ℕ) × Names std (trim s) ip plen
      × (plen ≤ width ip)
      × ((contains c a ≡ true) ↔ SharesPrefix plen ip (canonicalize_ip a))
unfolding parse contains
parse-contains std s c a ips e i =
    let (ip, plen, named, ip_ok, le, c_is) = parse_trimmed-Parsed std (trim s) c ips e in
    (
      ip,
      plen,
      named,
      le,
      rw c_is (entry-contains ip (canonicalize_ip a) plen le ip_ok (canonicalize_ip-IsIp a i)),
    )
