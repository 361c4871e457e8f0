-- ===== src/Usage/Values.antt =====
-- Writes of a value: what the buckets are for, and the invariant of the table, stay.
use native.Mathlib.Decide.{ℕ_discrete}
use ngx_http_crowdsec_module.Base.{
  ℕ, ◌<◌, ◌≡◌, ◌≢◌, refl, sym, ap, subst, ◌∙◌, List, set, arith, get_or-set_self, get_or-set_ne,
  length-set,
}
use ngx_http_crowdsec_module.Base.Words.{u64_mod}
use ngx_http_crowdsec_module.Usage.{UsageBucket, zeroed, hash, key_of}
use ngx_http_crowdsec_module.Usage.Keys.{IsKey}
use ngx_http_crowdsec_module.Usage.Counts.{at, way, Used, IsValid}

-- A write of the value alone.
abbrev pub revalued : UsageBucket → ℕ → UsageBucket
revalued b x = record b { value = x }

-- The parts of a bucket that say what it is for.
abbrev SameUse : UsageBucket → UsageBucket → Type 0
SameUse a b = (a.key_hash ≡ b.key_hash) × (a.ready ≡ b.ready) × (key_of a ≡ key_of b)

-- A write that leaves what the buckets are for leaves the invariant.
module _ {count : ℕ} {bs : List UsageBucket} (v : IsValid count bs) (i x : ℕ) (h : i < count)
    (small : x < u64_mod) where
  abbrev written_to : List UsageBucket
  written_to = set bs i (revalued (at bs i) x)

  revalued_at : (j : ℕ) → SameUse (at written_to j) (at bs j)
  revalued_at j = elim (ℕ_discrete i j) [
    | yes e ↦
        rw (← e, get_or-set_self bs i (revalued (at bs i) x) zeroed (omega (arith, v.sized)))
          (refl, refl, refl)
    | no n ↦ rw (get_or-set_ne bs i j (revalued (at bs i) x) zeroed n) (refl, refl, refl)
  ]

  revalued-Used : (j : ℕ) → Used count bs j → Used count written_to j
  revalued-Used j u =
      let (h, r, k) = revalued_at j in
      record {
        hashed = h ∙ u.hashed ∙ ap hash (sym k);
        written = λ z. u.written (sym r ∙ z);
        is_key = subst IsKey (sym k) u.is_key;
        place = u.place;
        placed = subst (λ t. (u.place < count) × (way count t u.place ≡ j)) (sym k) u.placed;
        behind =
            subst
              (λ t.
                (e : ℕ)
                → e < u.place
                → ((at written_to (way count t e)).key_hash ≢ 0)
                  × (key_of (at written_to (way count t e)) ≢ t))
              (sym k) behind_same;
      }
    where
      behind_same :
          (e : ℕ)
          → e < u.place
          → ((at written_to (way count (key_of (at bs j)) e)).key_hash ≢ 0)
            × (key_of (at written_to (way count (key_of (at bs j)) e)) ≢ key_of (at bs j))
      behind_same e lt =
          let (h', _, k') = revalued_at (way count (key_of (at bs j)) e) in
          (λ z. (u.behind e lt).0 (sym h' ∙ z), λ z. (u.behind e lt).1 (sym k' ∙ z))

  pub revalued-IsValid : IsValid count written_to
  revalued-IsValid = record {
    sized = length-set bs i (revalued (at bs i) x) ∙ v.sized;
    has_bucket = v.has_bucket;
    in_range = λ j l. elim (ℕ_discrete i j) [
      | yes e ↦
          rw (← e, get_or-set_self bs i (revalued (at bs i) x) zeroed (omega (arith, v.sized)))
            small
      | no n ↦ rw (get_or-set_ne bs i j (revalued (at bs i) x) zeroed n) (v.in_range j l)
    ];
    unused = λ j l z. (revalued_at j).1 ∙ v.unused j l (sym (revalued_at j).0 ∙ z);
    used = λ j l n. revalued-Used j (v.used j l (λ z. n ((revalued_at j).0 ∙ z)));
  }
