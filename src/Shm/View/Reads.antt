-- ===== src/Shm/View/Reads.antt =====
-- On a valid zone `stored` is the one live entry with the key, and the lookups read it.
use ngx_http_crowdsec_module.Base.{
  ℕ, ◌<◌, ◌≡◌, refl, ◌⊎◌, inl, inr, true, List, Option, none, some, if◌then◌else◌, arith,
}
use ngx_http_crowdsec_module.Net.{IpAddr}
use ngx_http_crowdsec_module.Shm.Entry.{ShmHashEntry, is_expired_at}
use ngx_http_crowdsec_module.Shm.Find.Search.{find_key-Found}
use ngx_http_crowdsec_module.Shm.Find.{find_slot_ip, find_slot_cidr}
use ngx_http_crowdsec_module.Shm.Key.{Key, ip, cidr, matches}
use ngx_http_crowdsec_module.Shm.Lookup.{
  LookupResult, result_of, lookup_prefix, lookup_ranges, lookup_locked,
}
use ngx_http_crowdsec_module.Shm.State.{ShmData, entry_at, prefix_is_present}
use ngx_http_crowdsec_module.Shm.Valid.{IsValid}
use ngx_http_crowdsec_module.Shm.View.{stored}

module _ (s : ShmData) (v : IsValid s) (k : Key) where
  -- The entry in any slot that has the key is the one stored for it.
  pub stored-eq-some :
      (i : ℕ)
      → i < s.capacity
      → matches k (entry_at s.entries i) ≡ true
      → stored s k ≡ some (entry_at s.entries i)
  unfolding stored
  stored-eq-some i lt m = elim (find_key-Found s.entries s.capacity k v.positive v.table) [
    | inl (j, r, jr, n) ↦ rw (r, v.table.unique j i k jr lt n m) refl
    | inr (j, r, absent) ↦ absurd (absent i lt m)
  ]

  -- Where no slot has the key nothing is stored for it.
  pub stored-eq-none :
      ((j : ℕ) → j < s.capacity → matches k (entry_at s.entries j) ≡ true → ⊥) → stored s k ≡ none
  unfolding stored
  stored-eq-none absent = elim (find_key-Found s.entries s.capacity k v.positive v.table) [
    | inl (j, r, jr, n) ↦ absurd (absent j jr n)
    | inr (j, r, _) ↦ rw r
  ]

  -- Either a slot holds what is stored, or none has the key.
  pub stored_cases :
      ((i : ℕ) × (i < s.capacity)
        × (matches k (entry_at s.entries i) ≡ true)
        × (stored s k ≡ some (entry_at s.entries i)))
      ⊎ (((j : ℕ) → j < s.capacity → matches k (entry_at s.entries j) ≡ true → ⊥)
          × (stored s k ≡ none))
  stored_cases = elim (find_key-Found s.entries s.capacity k v.positive v.table) [
    | inl (j, r, jr, n) ↦ inl (j, jr, n, stored-eq-some j jr n)
    | inr (j, r, absent) ↦ inr (absent, stored-eq-none absent)
  ]

-- An entry that counts at a time, as a lookup sees it.
abbrev pub answer : Option ShmHashEntry → ℕ → Option LookupResult
answer none now = none
answer (some e) now = if is_expired_at e now then none else some (result_of e now)

-- One round of the loop over the prefix lengths answers what is stored for the range if the prefix
-- length was ever used.
pub lookup_prefix-answer :
    (s : ShmData) (family prefix_len : ℕ) (network : List ℕ) (now : ℕ)
    → lookup_prefix s family prefix_len network now ≡ (
        if prefix_is_present s.cidr_prefixes prefix_len
        then answer (stored s (cidr family prefix_len network)) now
        else none)
unfolding lookup_prefix stored find_slot_cidr
lookup_prefix-answer s f p n now = ground arith

abbrev pub or_else : Option LookupResult → LookupResult → LookupResult
or_else none d = d
or_else (some r) d = r

-- The search of a lookup is the one that `stored` makes.
pub lookup_locked-answer :
    (s : ShmData) (a : IpAddr) (now : ℕ)
    → lookup_locked s a now ≡ or_else (answer (stored s (ip a)) now) (lookup_ranges s a now)
unfolding lookup_locked stored find_slot_ip
lookup_locked-answer s a now = ground arith
