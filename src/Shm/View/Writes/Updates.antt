-- ===== src/Shm/View/Writes/Updates.antt =====
-- The operations as updates of the map: what each does to the remediations of its key, and that it
-- leaves the other keys alone.
use ngx_http_crowdsec_module.Base.{
  ℕ, ◌<◌, ◌≡◌, refl, ap, ◌∙◌, inl, inr, true, false, Option, some, set, arith, Bool-cases,
}
use ngx_http_crowdsec_module.DecisionType.{DecisionType, to_bit, unknown}
use ngx_http_crowdsec_module.Expiry
use ngx_http_crowdsec_module.Expiry.{merge}
use ngx_http_crowdsec_module.Expiry.Remedy.{join, ban_of, captcha_of, at}
use ngx_http_crowdsec_module.Origin.{Origin}
use ngx_http_crowdsec_module.Shm.Entry.Laws.{
  ban_at, captcha_at, asked_ban, asked_captcha, prune_expired-at, prune_expired-le, dead-absent,
  merge-asked,
}
use ngx_http_crowdsec_module.Shm.Entry.{ShmHashEntry, has_decisions, prune_expired}
use ngx_http_crowdsec_module.Shm.Key.{Key, matches, is_live, matches-is_live}
use ngx_http_crowdsec_module.Shm.State.{ShmData, entry_at}
use ngx_http_crowdsec_module.Shm.Update.Insert.{IsNew}
use ngx_http_crowdsec_module.Shm.Update.Keeps.{
  replace-IsValid, bury-IsValid, bury_absent, merge_entry-SameKey, merged-mask,
}
use ngx_http_crowdsec_module.Shm.Update.{
  merge_entry, update_found, insert_entry, bury, bump_version,
}
use ngx_http_crowdsec_module.Shm.Valid.{IsValid, same-IsValid, count-le-capacity}
use ngx_http_crowdsec_module.Shm.View.Reads.{stored-eq-some, stored-eq-none}
use ngx_http_crowdsec_module.Shm.View.Writes.{
  Differ, write-stored_self, write-stored_other, bury-stored_other, insert-stored_self,
  insert-stored_other,
}
use ngx_http_crowdsec_module.Shm.View.{stored, ban_in, captcha_in}

-- What adding a decision of type `dt` and deadline `x` at time `t` makes of a key's remediations.
abbrev pub Adds : Option ShmHashEntry → Option ShmHashEntry → ℕ → DecisionType → ℕ → Type 0
Adds old new t dt x =
    (ban_in new ≡ join (at (ban_in old) t) (asked_ban dt x))
    × (captcha_in new ≡ join (at (captcha_in old) t) (asked_captcha dt x))

-- A new entry holds what its decision asks for.
pub new_asked :
    (dt : DecisionType) (x : ℕ)
    → (ban_of (merge Expiry.empty 0 (to_bit dt) x) (to_bit dt) ≡ asked_ban dt x)
      × (captcha_of (merge Expiry.empty 0 (to_bit dt) x) (to_bit dt) ≡ asked_captcha dt x)
unfolding to_bit
new_asked DecisionType.ban x = merge-asked Expiry.empty 0 x DecisionType.ban (omega arith)
new_asked DecisionType.captcha x = merge-asked Expiry.empty 0 x DecisionType.captcha (omega arith)
new_asked unknown x = merge-asked Expiry.empty 0 x unknown (omega arith)

merged-Adds :
    (e : ShmHashEntry) (t x : ℕ) (dt : DecisionType) (origin : Origin) (id : ℕ)
    → e.decision_types < 4
    → Adds (some e) (some (merge_entry (prune_expired e t) (to_bit dt) x origin id)) t dt x
unfolding merge_entry
merged-Adds e t x dt origin id h =
    let p = prune_expired e t in
    let (b, c) = prune_expired-at e t (omega arith) in
    let (mb, mc) =
      merge-asked p.expires p.decision_types x dt (omega (arith, prune_expired-le e t)) in
    (mb ∙ ap (λ r. join r (asked_ban dt x)) b, mc ∙ ap (λ r. join r (asked_captcha dt x)) c)

module _ (s : ShmData) (v : IsValid s) (k : Key) (t x : ℕ) (dt : DecisionType) (origin : Origin)
    (id now : ℕ) (e : ShmHashEntry)
    (asked : (ban_at e ≡ asked_ban dt x) × (captcha_at e ≡ asked_captcha dt x))
    (is_new : (s' : ShmData)
      → s'.capacity ≡ s.capacity
      → ((j : ℕ) → j < s'.capacity → matches k (entry_at s'.entries j) ≡ true → ⊥)
      → IsNew s' k e) where
  abbrev fresh : ShmData → ShmData
  fresh s' = insert_entry s' now e

  -- The branch for a key that is there: the decision joins an entry with something left, and
  -- otherwise replaces it.
  module _ (i : ℕ) (lt : i < s.capacity) (m : matches k (entry_at s.entries i) ≡ true) where
    abbrev pruned : ShmHashEntry
    pruned = prune_expired (entry_at s.entries i) t

    abbrev merged : ShmHashEntry
    merged = merge_entry pruned (to_bit dt) x origin id

    abbrev joined : ShmData
    joined = bump_version (record s { entries = set s.entries i merged })

    abbrev buried : ShmData
    buried = bury s i pruned

    is_found : is_live (entry_at s.entries i) ≡ true
    is_found = matches-is_live k _ m

    joined-IsValid : IsValid joined
    joined-IsValid =
        same-IsValid _ _
          (replace-IsValid s v i lt is_found merged
            (merge_entry-SameKey _ t (to_bit dt) x origin id)
            (merged-mask _ t x dt origin id (v.masked i)))
          refl refl refl refl

    merged_key : (l : Key) → matches l merged ≡ matches l (entry_at s.entries i)
    merged_key l =
        (merge_entry-SameKey (entry_at s.entries i) t (to_bit dt) x origin id).same_keys l

    buried-IsValid : IsValid buried
    buried-IsValid = bury-IsValid s v i lt is_found pruned

    buried-IsNew : IsNew buried k e
    unfolding bury
    buried-IsNew = is_new buried refl (bury_absent s v i lt is_found pruned k m)

    joined-Adds : Adds (stored s k) (stored joined k) t dt x
    joined-Adds =
        let after : stored joined k ≡ some merged =
          write-stored_self s joined i merged v joined-IsValid lt refl refl k (merged_key k ∙ m) in
        rw (stored-eq-some s v k i lt m, after) (merged-Adds _ t x dt origin id (v.masked i))

    replaced-Adds :
        has_decisions pruned ≡ false → Adds (stored s k) (stored (fresh buried) k) t dt x
    replaced-Adds dead =
        let none_left = dead-absent (entry_at s.entries i) t (omega (arith, v.masked i)) dead in
        let after = insert-stored_self buried buried-IsValid k now e buried-IsNew in
        rw (stored-eq-some s v k i lt m, after, none_left.0, none_left.1) asked

    pub found-Adds :
        Adds (stored s k) (stored (update_found s i t (to_bit dt) x origin id fresh) k) t dt x
    unfolding update_found
    found-Adds = elim (Bool-cases (has_decisions pruned)) [
      | inl some_left ↦ rw some_left joined-Adds
      | inr none_left ↦ rw none_left (replaced-Adds none_left)
    ]

    joined_others : (l : Key) → Differ k l → stored joined l ≡ stored s l
    joined_others l differ =
        write-stored_other s joined i merged v joined-IsValid lt refl refl l
          (rw merged_key (differ _ m)) (differ _ m)

    replaced_others : (l : Key) → Differ k l → stored (fresh buried) l ≡ stored s l
    replaced_others l differ =
        insert-stored_other buried buried-IsValid k now e buried-IsNew
          (unfold bury in omega (arith, v.positive, count-le-capacity s v)) l differ
        ∙ bury-stored_other s v k i pruned lt m l differ

    pub found_others :
        (l : Key)
        → Differ k l
        → stored (update_found s i t (to_bit dt) x origin id fresh) l ≡ stored s l
    unfolding update_found
    found_others l differ = elim (Bool-cases (has_decisions pruned)) [
      | inl some_left ↦ rw some_left (joined_others l differ)
      | inr none_left ↦ rw none_left (replaced_others l differ)
    ]

  -- The branch for a key that is not.
  pub absent-Adds :
      ((j : ℕ) → j < s.capacity → matches k (entry_at s.entries j) ≡ true → ⊥)
      → Adds (stored s k) (stored (fresh s) k) t dt x
  absent-Adds nowhere =
      rw (stored-eq-none s v k nowhere, insert-stored_self s v k now e (is_new s refl nowhere))
        asked
