-- ===== src/Shm/Find.antt =====
-- src/shm.rs: the four loops over the hash table.
pub mod Search
pub mod Vacancy
use ngx_http_crowdsec_module.Base.{
  ℕ, ◌+◌, ◌-◌, ◌%◌, ◌^◌, Bool, true, false, not, ◌&&◌, ◌||◌, Option, none, some, List, ◌==◌,
  if◌then◌else◌, set,
}
use ngx_http_crowdsec_module.Base.Words.{u32_mod}
use ngx_http_crowdsec_module.Net.{IpAddr}
use ngx_http_crowdsec_module.Shm.Entry.{
  ShmHashEntry, is_empty, is_tombstone, is_vacant, matches_ip, matches_cidr, is_expired_at,
  mark_tombstone,
}
use ngx_http_crowdsec_module.Shm.Probe.{probe}
use ngx_http_crowdsec_module.Shm.State.{ShmData, entry_at}

-- One round of the search for a key: its test on the slot's entry, and whether the slot ends it.
unfoldable pub find_body : List ShmHashEntry → (ShmHashEntry → Bool) → ℕ → Option (ℕ × Bool)
find_body entries hit idx =
    if is_empty (entry_at entries idx)
    then some (idx, false)
    else if hit (entry_at entries idx)
    then some (idx, true)
    else none

abbrev pub not_found_at : ℕ → ℕ × Bool
not_found_at idx = (idx, false)

abbrev pub find_slot : List ShmHashEntry → ℕ → ℕ → (ShmHashEntry → Bool) → ℕ × Bool
find_slot entries capacity hash hit =
    probe (0, false) capacity (hash % capacity) (find_body entries hit) not_found_at capacity
      (hash % capacity)

abbrev pub hits_ip : ℕ → IpAddr → ShmHashEntry → Bool
hits_ip hash ip e = not (is_tombstone e) && e.hash == hash && matches_ip e ip

abbrev pub hits_cidr : ℕ → ℕ → ℕ → List ℕ → ShmHashEntry → Bool
hits_cidr hash family prefix_len network e =
    not (is_tombstone e) && e.hash == hash && matches_cidr e family prefix_len network

unfoldable pub find_slot_ip : List ShmHashEntry → ℕ → ℕ → IpAddr → ℕ × Bool
find_slot_ip entries capacity hash ip = find_slot entries capacity hash (hits_ip hash ip)

unfoldable pub find_slot_cidr : List ShmHashEntry → ℕ → ℕ → ℕ → ℕ → List ℕ → ℕ × Bool
find_slot_cidr entries capacity hash family prefix_len network =
    find_slot entries capacity hash (hits_cidr hash family prefix_len network)

unfoldable pub vacant_body : List ShmHashEntry → ℕ → Option (Option ℕ)
vacant_body entries idx = if is_vacant (entry_at entries idx) then some (some idx) else none

unfoldable pub find_vacant_slot : List ShmHashEntry → ℕ → ℕ → Option ℕ
find_vacant_slot entries capacity hash =
    probe none capacity (hash % capacity) (vacant_body entries) (λ _. none) capacity
      (hash % capacity)

unfoldable pub evict_body : List ShmHashEntry → ℕ → Bool → ℕ → Option (Option ℕ)
evict_body entries now expired_only hand =
    if not (is_vacant (entry_at entries hand))
      && (not expired_only || is_expired_at (entry_at entries hand) now)
    then some (some hand)
    else none

-- The slot that the clock hand stops at, if there is one.
unfoldable pub victim : ShmData → ℕ → Bool → Option ℕ
victim s now expired_only =
    probe none s.capacity s.clock_hand (evict_body s.entries now expired_only) (λ _. none)
      s.capacity s.clock_hand

-- What the loop does to the zone at the slot where it stops.
unfoldable pub evict_at : ShmData → ℕ → ShmData
evict_at s hand = record s {
  entries = set s.entries hand (mark_tombstone (entry_at s.entries hand));
  count = s.count - 1;
  eviction_count = (s.eviction_count + 1) % u32_mod;
  clock_hand = (hand + 1) % s.capacity;
}

unfoldable pub evict_clock_matching : ShmData → ℕ → Bool → Option (ShmData × ℕ)
evict_clock_matching s now expired_only = elim (victim s now expired_only) [
  | none ↦ none
  | some hand ↦ some (evict_at s hand, hand)
]

-- Entries that have expired go first.
unfoldable pub evict_clock : ShmData → ℕ → Option (ShmData × ℕ)
evict_clock s now = elim (evict_clock_matching s now true) [
  | some r ↦ some r
  | none ↦ evict_clock_matching s now false
]
