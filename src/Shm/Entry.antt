-- ===== src/Shm/Entry.antt =====
-- src/shm.rs: `ShmHashEntry`, a slot of the hash table. Its padding is left out.
pub mod Laws
use ngx_http_crowdsec_module.Base.{
  ℕ, ◌-◌, Bool, true, false, not, ◌&&◌, ◌||◌, List, ◌==◌, if◌then◌else◌, take, replicate, bit_and,
  bit_or, bytes_eq,
}
use ngx_http_crowdsec_module.DecisionType.{DecisionType, to_bit, from_bitmask}
use ngx_http_crowdsec_module.Expiry
use ngx_http_crowdsec_module.Expiry.{DecisionExpiry, active_mask, clear_bit, prune_inactive}
use ngx_http_crowdsec_module.Net.{IpAddr, v4, v6}
use ngx_http_crowdsec_module.Origin
use ngx_http_crowdsec_module.Origin.{Origin}

-- `hash` is 0 for an empty slot and 1 for a tombstone; `flags` has bit 0 for a tombstone and bit 2
-- for a CIDR range.
pub record ShmHashEntry : Type 0 where
  pub hash : ℕ
  pub family : ℕ
  pub decision_types : ℕ
  pub origin : ℕ
  pub flags : ℕ
  pub prefix_len : ℕ
  pub addr : List ℕ
  pub expires : DecisionExpiry
  pub scenario_id : ℕ

abbrev pub hash_empty : ℕ
hash_empty = 0

abbrev pub hash_tombstone : ℕ
hash_tombstone = 1

abbrev pub flag_tombstone : ℕ
flag_tombstone = 1

abbrev pub flag_is_cidr : ℕ
flag_is_cidr = 4

abbrev pub empty : ShmHashEntry
empty = record {
  hash = hash_empty;
  family = 0;
  decision_types = 0;
  origin = 0;
  flags = 0;
  prefix_len = 0;
  addr = replicate 16 0;
  expires = Expiry.empty;
  scenario_id = 0;
}

unfoldable pub is_empty : ShmHashEntry → Bool
is_empty e = e.hash == hash_empty

unfoldable pub is_tombstone : ShmHashEntry → Bool
is_tombstone e = e.hash == hash_tombstone || not (bit_and e.flags flag_tombstone == 0)

unfoldable pub is_vacant : ShmHashEntry → Bool
unfolding is_empty is_tombstone
is_vacant e = is_empty e || is_tombstone e

unfoldable pub is_cidr : ShmHashEntry → Bool
is_cidr e = not (bit_and e.flags flag_is_cidr == 0)

unfoldable pub mark_tombstone : ShmHashEntry → ShmHashEntry
mark_tombstone e = record e {
  hash = hash_tombstone;
  flags = bit_or e.flags flag_tombstone;
  decision_types = 0;
}

unfoldable pub has_decisions : ShmHashEntry → Bool
has_decisions e = not (e.decision_types == 0)

unfoldable pub add_decision_type : ShmHashEntry → DecisionType → ShmHashEntry
add_decision_type e dt = record e { decision_types = bit_or e.decision_types (to_bit dt) }

-- `!bit` on a `u8`.
unfoldable pub remove_decision_type : ShmHashEntry → DecisionType → ShmHashEntry
remove_decision_type e dt = record e {
  decision_types = bit_and e.decision_types (255 - to_bit dt);
  expires = clear_bit e.expires (to_bit dt);
}

unfoldable pub prune_expired : ShmHashEntry → ℕ → ShmHashEntry
prune_expired e now =
    let (kept, active) = prune_inactive e.expires e.decision_types now in
    record e { decision_types = active; expires = kept }

unfoldable pub has_decision_type : ShmHashEntry → DecisionType → Bool
has_decision_type e dt = not (bit_and e.decision_types (to_bit dt) == 0)

unfoldable pub matches_ip : ShmHashEntry → IpAddr → Bool
matches_ip e (v4 o) =
    if is_vacant e then false else e.family == 4 && not (is_cidr e) && bytes_eq (take 4 e.addr) o
matches_ip e (v6 o) =
    if is_vacant e then false else e.family == 6 && not (is_cidr e) && bytes_eq e.addr o

-- How many bytes an address of the family has.
abbrev pub addr_len : ℕ → ℕ
addr_len family = if family == 4 then 4 else 16

unfoldable pub matches_cidr : ShmHashEntry → ℕ → ℕ → List ℕ → Bool
matches_cidr e family prefix_len network =
    if is_vacant e || not (is_cidr e)
    then false
    else if not (e.family == family) || not (e.prefix_len == prefix_len)
    then false
    else bytes_eq (take (addr_len family) e.addr) (take (addr_len family) network)

unfoldable pub decision_type : ShmHashEntry → DecisionType
decision_type e = from_bitmask e.decision_types

unfoldable pub origin_of : ShmHashEntry → Origin
origin_of e = Origin.from_u8 e.origin

unfoldable pub decision_type_at : ShmHashEntry → ℕ → DecisionType
decision_type_at e now = from_bitmask (active_mask e.expires e.decision_types now)

unfoldable pub is_expired_at : ShmHashEntry → ℕ → Bool
is_expired_at e now = active_mask e.expires e.decision_types now == 0
