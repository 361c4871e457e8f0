-- ===== src/Shm/View/Slots.antt =====
-- What a lookup of an address answers, by the slots of the table alone.
use ngx_http_crowdsec_module.Base.{
  ℕ, ◌<◌, ◌≡◌, refl, subst, ◌∙◌, ◌⊎◌, inl, inr, true, false, Bool-cases, some,
}
use ngx_http_crowdsec_module.DecisionType.{DecisionType}
use ngx_http_crowdsec_module.Expiry.Remedy
use ngx_http_crowdsec_module.Net.{IpAddr}
use ngx_http_crowdsec_module.Shm.Entry.Laws.{ban_at, captcha_at, decision_type_at-is_live}
use ngx_http_crowdsec_module.Shm.Entry.{ShmHashEntry, is_expired_at, origin_of}
use ngx_http_crowdsec_module.Shm.Key.{
  ip, is_live, matches, matches-is_live, matches-Fields, Fields, Fields-matches,
}
use ngx_http_crowdsec_module.Shm.Lookup.{LookupResult, lookup_locked, lookup_ranges}
use ngx_http_crowdsec_module.Shm.State.{ShmData, entry_at}
use ngx_http_crowdsec_module.Shm.Valid.{IsValid}
use ngx_http_crowdsec_module.Shm.View.{stored}
use ngx_http_crowdsec_module.Shm.View.Reads.{stored_cases, lookup_locked-answer}

-- The entry is in use for the address: of its family, no range, and with its bytes.
abbrev pub Holds : ShmHashEntry → IpAddr → Type 0
Holds e a = (is_live e ≡ true) × Fields (ip a) e

-- The entry's remediations are over.
abbrev pub Silent : ShmHashEntry → ℕ → Type 0
Silent e now = (Remedy.is_live (ban_at e) now ≡ false) × (Remedy.is_live (captcha_at e) now ≡ false)

-- The answer is the entry's: its ban while that lasts, else its captcha while that lasts.
abbrev pub Speaks : ShmHashEntry → ℕ → LookupResult → Type 0
Speaks e now r =
    (r.found ≡ true)
    × (r.origin ≡ origin_of e)
    × (r.scenario_id ≡ e.scenario_id)
    × (((Remedy.is_live (ban_at e) now ≡ true) × (r.decision_type ≡ DecisionType.ban))
        ⊎ ((Remedy.is_live (ban_at e) now ≡ false)
            × (Remedy.is_live (captcha_at e) now ≡ true)
            × (r.decision_type ≡ DecisionType.captcha)))

abbrev pub Answered : ShmData → IpAddr → ℕ → LookupResult → Type 0
Answered s a now r =
    ((i : ℕ) × (i < s.capacity)
      × Holds (entry_at s.entries i) a
      × Speaks (entry_at s.entries i) now r)
    ⊎ ((r ≡ lookup_ranges s a now)
        × ((i : ℕ)
            → i < s.capacity
            → Holds (entry_at s.entries i) a
            → Silent (entry_at s.entries i) now))

module _ (s : ShmData) (v : IsValid s) (a : IpAddr) (now : ℕ) where
  held_matches : (e : ShmHashEntry) → Holds e a → matches (ip a) e ≡ true
  held_matches e (l, f) = Fields-matches (ip a) e l f

  matches-Holds : (e : ShmHashEntry) → matches (ip a) e ≡ true → Holds e a
  matches-Holds e m = (matches-is_live (ip a) e m, matches-Fields (ip a) e m)

  spoken :
      (i : ℕ)
      → stored s (ip a) ≡ some (entry_at s.entries i)
      → Silent (entry_at s.entries i) now
        ⊎ Speaks (entry_at s.entries i) now (lookup_locked s a now)
  spoken i here =
      let e = entry_at s.entries i in
      let (type, expired) = decision_type_at-is_live e now (v.masked i) in
      elim (Bool-cases (Remedy.is_live (ban_at e) now)) [
        | inl b ↦
            let still : is_expired_at e now ≡ false = expired ∙ rw b refl in
            rw (lookup_locked-answer s a now, here, still)
              (inr (refl, refl, refl, inl (b, type ∙ rw b refl)))
        | inr n ↦ elim (Bool-cases (Remedy.is_live (captcha_at e) now)) [
          | inl c ↦
              let still : is_expired_at e now ≡ false = expired ∙ rw (n, c) refl in
              rw (lookup_locked-answer s a now, here, still)
                (inr (refl, refl, refl, inr (n, c, type ∙ rw (n, c) refl)))
          | inr d ↦ inl (n, d)
        ]
      ]

  Silent-lookup_ranges :
      (i : ℕ)
      → stored s (ip a) ≡ some (entry_at s.entries i)
      → Silent (entry_at s.entries i) now
      → lookup_locked s a now ≡ lookup_ranges s a now
  Silent-lookup_ranges i here (n, d) =
      let e = entry_at s.entries i in
      let (_, expired) = decision_type_at-is_live e now (v.masked i) in
      let gone : is_expired_at e now ≡ true = expired ∙ rw (n, d) refl in
      rw (lookup_locked-answer s a now, here, gone) refl

  -- On a valid zone a lookup of an address answers with the entry of the slot that is in use for
  -- the address, its ban while that lasts and else its captcha while that lasts, with the entry's
  -- origin and scenario; what the ranges say is answered exactly where no slot in use for the
  -- address has a remediation that lasts.
  pub lookup_locked-Answered : Answered s a now (lookup_locked s a now)
  lookup_locked-Answered = elim (stored_cases s v (ip a)) [
    | inr (absent, nothing) ↦ inr (
      rw (lookup_locked-answer s a now, nothing) refl,
      λ i lt held. absurd (absent i lt (held_matches _ held)),
    )
    | inl (i, lt, m, here) ↦ elim (spoken i here) [
      | inr speaks ↦ inl (i, lt, matches-Holds _ m, speaks)
      | inl silent ↦ inr (
        Silent-lookup_ranges i here silent,
        λ j jr held.
            let same = v.table.unique i j (ip a) lt jr m (held_matches _ held) in
            subst (λ t. Silent (entry_at s.entries t) now) same silent,
      )
    ]
  ]
