-- ===== src/Shm/View.antt =====
-- The zone as a map: what it stores for a key, whatever the slots, and the two remediations that it
-- holds for the key.
pub mod Reads
pub mod Writes
pub mod Answers
pub mod Ranges
pub mod Slots
use ngx_http_crowdsec_module.Base.{ℕ, Option, none, some, Bool, if◌then◌else◌}
use ngx_http_crowdsec_module.Expiry.Remedy.{Remedy, absent, ban_of, captcha_of}
use ngx_http_crowdsec_module.Shm.Entry.{ShmHashEntry}
use ngx_http_crowdsec_module.Shm.Find.Search.{find_key}
use ngx_http_crowdsec_module.Shm.Key.{Key}
use ngx_http_crowdsec_module.Shm.State.{ShmData, entry_at}

abbrev pub at_found : ShmData → ℕ × Bool → Option ShmHashEntry
at_found s (idx, found) = if found then some (entry_at s.entries idx) else none

unfoldable pub stored : ShmData → Key → Option ShmHashEntry
stored s k = at_found s (find_key s.entries s.capacity k)

abbrev pub ban_in : Option ShmHashEntry → Remedy
ban_in none = absent
ban_in (some e) = ban_of e.expires e.decision_types

abbrev pub captcha_in : Option ShmHashEntry → Remedy
captcha_in none = absent
captcha_in (some e) = captcha_of e.expires e.decision_types
