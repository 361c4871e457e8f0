-- ===== src/Net/Cidr.antt =====
-- `parse_cidr` of src/shm.rs: a range as LAPI spells it. The parsers of the standard library for an
-- address and for a `u8` are parameters.
use ngx_http_crowdsec_module.Base.Text.{Text, split_once}
use ngx_http_crowdsec_module.Base.{
  ℕ, ◌-◌, ◌/◌, ◌%◌, ◌≤◌, ◌≡◌, ◌∙◌, inl, inr, true, ◌&&◌, List, ◌++◌, Option, none, some, ltb, leb,
  ◌==◌, if◌then◌else◌, length, replicate, take, ◌>>=◌, arith, Bool-cases, Option-cases,
  length-append, length-take, length-replicate, length-set,
}
use ngx_http_crowdsec_module.Net.Mask.{length-to_be_bytes}
use ngx_http_crowdsec_module.Net.{apply_ipv4_mask, apply_ipv6_mask, cidr_params_valid}

pub record AddrParsers : Type 0 where
  pub parse_u8 : Text → Option ℕ
  pub parse_v4 : Text → Option (List ℕ)
  pub parse_v6 : Text → Option (List ℕ)

-- What the types of the standard library say of a parsed address.
pub record AreOctets (std : AddrParsers) : Type 0 where
  pub four : (s : Text) (o : List ℕ) → std.parse_v4 s ≡ some o → length o ≡ 4
  pub sixteen : (s : Text) (o : List ℕ) → std.parse_v6 s ≡ some o → length o ≡ 16

-- The sixteen bytes of the network, the family and the prefix length.
pub record Cidr : Type 0 where
  pub network : List ℕ
  pub family : ℕ
  pub prefix_len : ℕ

abbrev cidr_v4 : List ℕ → ℕ → Option Cidr
cidr_v4 octets prefix_len =
    if ltb 32 prefix_len
    then none
    else some (record {
      network = apply_ipv4_mask octets prefix_len ++ replicate 12 0;
      family = 4;
      prefix_len = prefix_len;
    })

abbrev cidr_v6 : List ℕ → ℕ → Option Cidr
cidr_v6 octets prefix_len =
    if ltb 128 prefix_len
    then none
    else some (record {
      network = apply_ipv6_mask octets prefix_len;
      family = 6;
      prefix_len = prefix_len;
    })

-- IPv4 first.
abbrev of_address : AddrParsers → Text → ℕ → Option Cidr
of_address std addr_s prefix_len = elim (std.parse_v4 addr_s) [
  | some octets ↦ cidr_v4 octets prefix_len
  | none ↦ elim (std.parse_v6 addr_s) [ some octets ↦ cidr_v6 octets prefix_len | none ↦ none ]
]

unfoldable pub parse_cidr : AddrParsers → Text → Option Cidr
parse_cidr std cidr = do
  (addr_s, prefix_s) ← split_once 47 cidr
  prefix_len ← std.parse_u8 prefix_s
  of_address std addr_s prefix_len

length-apply_ipv4_mask : (o : List ℕ) (p : ℕ) → length o ≡ 4 → length (apply_ipv4_mask o p) ≡ 4
unfolding apply_ipv4_mask
length-apply_ipv4_mask o p h = elim (Bool-cases (p == 0)) [
  | inl z ↦ rw z
  | inr z ↦ elim (Bool-cases (leb 32 p)) [
    | inl b ↦ rw (z, b) h
    | inr b ↦ rw (z, b) (length-to_be_bytes 4 _)
  ]
]

-- The bytes that a mask of whole bytes keeps, and zeros.
length-whole_bytes :
    (o : List ℕ) (n : ℕ) → length o ≡ 16 → n ≤ 16 → length (take n o ++ replicate (16 - n) 0) ≡ 16
length-whole_bytes o n h le = omega (
  arith,
  length-append (take n o) (replicate (16 - n) 0),
  length-take n o,
  length-replicate {A = ℕ} (16 - n) 0,
)

length-apply_ipv6_mask : (o : List ℕ) (p : ℕ) → length o ≡ 16 → length (apply_ipv6_mask o p) ≡ 16
unfolding apply_ipv6_mask
length-apply_ipv6_mask o p h = elim (Bool-cases (p == 0)) [
  | inl z ↦ rw z
  | inr z ↦ elim (Bool-cases (leb 128 p)) [
    | inl b ↦ rw (z, b) h
    | inr b ↦
        let whole = length-whole_bytes o (p / 8) h (ground arith) in
        elim (Bool-cases (ltb 0 (p % 8) && ltb (p / 8) 16)) [
          | inl t ↦
              rw (z, b, t) (length-set (take (p / 8) o ++ replicate (16 - p / 8) 0) _ _ ∙ whole)
          | inr t ↦ rw (z, b, t) whole
        ]
  ]
]

abbrev Passes : Cidr → Type 0
Passes c = (cidr_params_valid c.family c.prefix_len c.network ≡ true) × (length c.network ≡ 16)

cidr_v4-Passes : (o : List ℕ) (p : ℕ) (c : Cidr) → length o ≡ 4 → cidr_v4 o p ≡ some c → Passes c
unfolding cidr_params_valid
cidr_v4-Passes o p c h e =
    let bytes = length-append (apply_ipv4_mask o p) (replicate 12 0) in
    let four = length-apply_ipv4_mask o p h in
    let twelve = length-replicate {A = ℕ} 12 0 in ground arith

cidr_v6-Passes : (o : List ℕ) (p : ℕ) (c : Cidr) → length o ≡ 16 → cidr_v6 o p ≡ some c → Passes c
unfolding cidr_params_valid
cidr_v6-Passes o p c h e = let sixteen = length-apply_ipv6_mask o p h in ground arith

address-Passes :
    (std : AddrParsers) (s : Text) (p : ℕ) (c : Cidr)
    → AreOctets std
    → of_address std s p ≡ some c
    → Passes c
address-Passes std s p c octets e = elim (Option-cases (std.parse_v4 s)) [
  | inl no_v4 ↦ elim (Option-cases (std.parse_v6 s)) [
    | inl no_v6 ↦ absurd (ground arith)
    | inr (o, v6) ↦ cidr_v6-Passes o p c (octets.sixteen s o v6) (ground arith)
  ]
  | inr (o, v4) ↦ cidr_v4-Passes o p c (octets.four s o v4) (ground arith)
]

-- With address parsers that give four and sixteen octets, a range that parses passes the guard of
-- add_cidr_decision, and its network has sixteen bytes.
pub parse_cidr-cidr_params_valid :
    (std : AddrParsers) (cidr : Text) (c : Cidr)
    → AreOctets std
    → parse_cidr std cidr ≡ some c
    → (cidr_params_valid c.family c.prefix_len c.network ≡ true) × (length c.network ≡ 16)
unfolding parse_cidr
parse_cidr-cidr_params_valid std cidr c octets parsed = elim (Option-cases (split_once 47 cidr)) [
  | inl none_at ↦ absurd (ground arith)
  | inr ((s, prefix_s), at_slash) ↦ elim (Option-cases (std.parse_u8 prefix_s)) [
    | inl no_number ↦ absurd (ground arith)
    | inr (p, number) ↦ address-Passes std s p c octets (rw (at_slash, number) at parsed)
  ]
]
