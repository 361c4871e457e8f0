-- ===== src/Shm/View/Ranges.antt =====
-- Which range answers a lookup.
use native.Mathlib.Decide.{ℕ_discrete}
use ngx_http_crowdsec_module.Base.{
  ℕ, zero, suc, ◌<◌, ◌≡◌, refl, ◌⊎◌, inl, inr, Option, none, some, List, arith, Option-cases,
}
use ngx_http_crowdsec_module.Net.{apply_ipv4_mask, apply_ipv6_mask}
use ngx_http_crowdsec_module.Shm.Lookup.{
  LookupResult, not_found, lookup_prefix, lookup_cidr_v4, lookup_cidr_v6,
}
use ngx_http_crowdsec_module.Shm.State.{ShmData}

-- The ranges are tried from the longest prefix to the shortest, and the first that answers counts.
abbrev pub FirstOf : ℕ → (ℕ → Option LookupResult) → LookupResult → Type 0
FirstOf n at_prefix r =
    ((p : ℕ) × (p < n) × (at_prefix p ≡ some r) × ((q : ℕ) → q < n → p < q → at_prefix q ≡ none))
    ⊎ ((r ≡ not_found) × ((q : ℕ) → q < n → at_prefix q ≡ none))

module _ (at_prefix : ℕ → Option LookupResult) (n : ℕ) (r : LookupResult) where
  FirstOf-here : at_prefix n ≡ some r → FirstOf (suc n) at_prefix r
  FirstOf-here h = inl (n, omega arith, h, λ q lt above. absurd (omega arith))

  FirstOf-later : at_prefix n ≡ none → FirstOf n at_prefix r → FirstOf (suc n) at_prefix r
  FirstOf-later h (inl (p, lt, here, longer)) = inl (
    p,
    omega arith,
    here,
    λ q below above. elim (ℕ_discrete q n) [ yes e ↦ rw e h | no e ↦ longer q (omega arith) above ],
  )
  FirstOf-later h (inr (nothing, silent)) =
      inr (
        nothing,
        λ q below. elim (ℕ_discrete q n) [ yes e ↦ rw e h | no e ↦ silent q (omega arith) ],
      )

-- Over the prefix lengths below n, lookup_cidr_v4 answers with the longest whose range answers,
-- and finds nothing exactly where none does.
pub lookup_cidr_v4-FirstOf :
    (s : ShmData) (o : List ℕ) (now n : ℕ)
    → FirstOf n (λ p. lookup_prefix s 4 p (apply_ipv4_mask o p) now) (lookup_cidr_v4 s o now n)
unfolding lookup_cidr_v4
lookup_cidr_v4-FirstOf s o now zero = inr (refl, λ q lt. elim lt [ ])
lookup_cidr_v4-FirstOf s o now (suc n) =
    let at_prefix = λ (p : ℕ). lookup_prefix s 4 p (apply_ipv4_mask o p) now in
    elim (Option-cases (lookup_prefix s 4 n (apply_ipv4_mask o n) now)) [
      | inl e ↦
          let later : lookup_cidr_v4 s o now (suc n) ≡ lookup_cidr_v4 s o now n =
            rw (e, lookup_cidr_v4) refl in
          rw later (FirstOf-later at_prefix n _ e (lookup_cidr_v4-FirstOf s o now n))
      | inr (r, e) ↦
          let here : lookup_cidr_v4 s o now (suc n) ≡ r = rw (e, lookup_cidr_v4) refl in
          rw here (FirstOf-here at_prefix n r e)
    ]

-- lookup_cidr_v6 chooses among the ranges as lookup_cidr_v4 does.
pub lookup_cidr_v6-FirstOf :
    (s : ShmData) (o : List ℕ) (now n : ℕ)
    → FirstOf n (λ p. lookup_prefix s 6 p (apply_ipv6_mask o p) now) (lookup_cidr_v6 s o now n)
unfolding lookup_cidr_v6
lookup_cidr_v6-FirstOf s o now zero = inr (refl, λ q lt. elim lt [ ])
lookup_cidr_v6-FirstOf s o now (suc n) =
    let at_prefix = λ (p : ℕ). lookup_prefix s 6 p (apply_ipv6_mask o p) now in
    elim (Option-cases (lookup_prefix s 6 n (apply_ipv6_mask o n) now)) [
      | inl e ↦
          let later : lookup_cidr_v6 s o now (suc n) ≡ lookup_cidr_v6 s o now n =
            rw (e, lookup_cidr_v6) refl in
          rw later (FirstOf-later at_prefix n _ e (lookup_cidr_v6-FirstOf s o now n))
      | inr (r, e) ↦
          let here : lookup_cidr_v6 s o now (suc n) ≡ r = rw (e, lookup_cidr_v6) refl in
          rw here (FirstOf-here at_prefix n r e)
    ]
