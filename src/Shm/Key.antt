-- ===== src/Shm/Key.antt =====
-- The keys of the hash table, single addresses and ranges, and what it means that an entry has a
-- key. Two keys that one entry has are the same key.
use ngx_http_crowdsec_module.Base.{
  ℕ, ◌≡◌, ap, Bool, true, false, not, ◌&&◌, List, ◌==◌, take, bytes_eq_iff, arith,
}
use ngx_http_crowdsec_module.Net.{IpAddr, v4, v6}
use ngx_http_crowdsec_module.Shm.Entry.{
  ShmHashEntry, is_vacant, is_tombstone, is_cidr, matches_ip, matches_cidr, addr_len,
}
use ngx_http_crowdsec_module.Shm.Hash.Laws.{hash_cidr-take}
use ngx_http_crowdsec_module.Shm.Hash.{hash_ip, hash_cidr}

pub data Key : Type 0 where
  ip : IpAddr → Key
  cidr : ℕ → ℕ → List ℕ → Key

abbrev pub matches : Key → ShmHashEntry → Bool
matches (ip a) e = matches_ip e a
matches (cidr family prefix_len network) e = matches_cidr e family prefix_len network

abbrev pub hash_of : Key → ℕ
hash_of (ip a) = hash_ip a
hash_of (cidr family prefix_len network) = hash_cidr family prefix_len network

-- The test that the two searches make of a slot.
abbrev pub hits : Key → ShmHashEntry → Bool
hits k e = not (is_tombstone e) && e.hash == hash_of k && matches k e

abbrev pub is_live : ShmHashEntry → Bool
is_live e = not (is_vacant e)

pub matches-is_live : (k : Key) (e : ShmHashEntry) → matches k e ≡ true → is_live e ≡ true
unfolding matches_ip matches_cidr
matches-is_live (ip (v4 o)) e h = ground arith
matches-is_live (ip (v6 o)) e h = ground arith
matches-is_live (cidr f p n) e h = ground arith

-- The two keys agree on every entry, and they have one hash.
pub record Same (k l : Key) : Type 0 where
  pub same_hash : hash_of k ≡ hash_of l
  pub same_matches : (e : ShmHashEntry) → matches k e ≡ matches l e

Same-of_eq : (k l : Key) → k ≡ l → Same k l
Same-of_eq k l e = record { same_hash = ap hash_of e; same_matches = λ x. ap (λ m. matches m x) e }

Same-of_cidr :
    (f p : ℕ) (xs ys : List ℕ)
    → take (addr_len f) xs ≡ take (addr_len f) ys
    → Same (cidr f p xs) (cidr f p ys)
unfolding matches_cidr
Same-of_cidr f p xs ys e = record {
  same_hash = hash_cidr-take f p xs ys e;
  same_matches = λ x. rw e;
}

-- What a match says of the entry's fields.
abbrev pub Fields : Key → ShmHashEntry → Type 0
Fields (ip (v4 o)) e = (is_cidr e ≡ false) × (e.family ≡ 4) × (take 4 e.addr ≡ o)
Fields (ip (v6 o)) e = (is_cidr e ≡ false) × (e.family ≡ 6) × (e.addr ≡ o)
Fields (cidr f p n) e =
    (is_cidr e ≡ true)
    × (e.family ≡ f)
    × (e.prefix_len ≡ p)
    × (take (addr_len f) e.addr ≡ take (addr_len f) n)

pub matches-Fields : (k : Key) (e : ShmHashEntry) → matches k e ≡ true → Fields k e
unfolding matches_ip matches_cidr
matches-Fields (ip (v4 o)) e h = ground (arith, bytes_eq_iff (take 4 e.addr) o)
matches-Fields (ip (v6 o)) e h = ground (arith, bytes_eq_iff e.addr o)
matches-Fields (cidr f p n) e h =
    ground (arith, bytes_eq_iff (take (addr_len f) e.addr) (take (addr_len f) n))

pub Fields-matches :
    (k : Key) (e : ShmHashEntry) → is_live e ≡ true → Fields k e → matches k e ≡ true
unfolding matches_ip matches_cidr
Fields-matches (ip (v4 o)) e l h = ground (arith, bytes_eq_iff (take 4 e.addr) o)
Fields-matches (ip (v6 o)) e l h = ground (arith, bytes_eq_iff e.addr o)
Fields-matches (cidr f p n) e l h =
    ground (arith, bytes_eq_iff (take (addr_len f) e.addr) (take (addr_len f) n))

Fields-Same : (k l : Key) (e : ShmHashEntry) → Fields k e → Fields l e → Same k l
Fields-Same (ip (v4 o)) (ip (v4 q)) e a b = Same-of_eq _ _ (cc)
Fields-Same (ip (v4 o)) (ip (v6 q)) e a b = absurd (omega arith)
Fields-Same (ip (v6 o)) (ip (v4 q)) e a b = absurd (omega arith)
Fields-Same (ip (v6 o)) (ip (v6 q)) e a b = Same-of_eq _ _ (cc)
Fields-Same (ip (v4 o)) (cidr f p n) e a b = absurd (cc)
Fields-Same (ip (v6 o)) (cidr f p n) e a b = absurd (cc)
Fields-Same (cidr f p n) (ip (v4 o)) e a b = absurd (cc)
Fields-Same (cidr f p n) (ip (v6 o)) e a b = absurd (cc)
Fields-Same (cidr f p n) (cidr g q m) e a b =
    let same_family : f ≡ g = cc in
    let same_prefix : p ≡ q = cc in
    let same_bytes : take (addr_len f) n ≡ take (addr_len f) m = cc in
    rw (← same_family, ← same_prefix) (Same-of_cidr f p n m same_bytes)

-- An entry that has two keys has one.
pub matches-Same :
    (k l : Key) (e : ShmHashEntry) → matches k e ≡ true → matches l e ≡ true → Same k l
matches-Same k l e h g = Fields-Same k l e (matches-Fields k e h) (matches-Fields l e g)
