-- ===== src/Usage/Settles.antt =====
-- What a push of the usage metrics leaves in the table.
use ngx_http_crowdsec_module.Usage.Meanwhile.{
  inc_all, Fits, inc_all-grows, with_buckets, with_buckets-IsTable, record_all-some,
  reset_after_push-some, set_last_push-some,
}
use ngx_http_crowdsec_module.Base.{
  ℕ, ◌+◌, ◌≤◌, ◌≡◌, ◌≢◌, refl, sym, ap, ◌∙◌, ◌⊎◌, inl, inr, true, false, ◌&&◌, Option, some, List,
  [], ◌∷◌, ◌==◌, ==_iff, arith, Bool-cases, ltb, leb, all,
}
use ngx_http_crowdsec_module.Base.Text.{Text}
use ngx_http_crowdsec_module.Shm.State.{ShmData}
use ngx_http_crowdsec_module.Usage.{
  BucketKey, UsageMetrics, header_ptr, usage_magic, usage_layout_version,
}
use ngx_http_crowdsec_module.Usage.Items.{Item, reset_items, collect_items, reset_after_push}
use ngx_http_crowdsec_module.Usage.Counts.{tally, IsValid}
use ngx_http_crowdsec_module.Usage.Reports.{
  reported, IsCumulative, reset_items-TakenOff, tally_of, IsTable, collect_items-tally,
}
use ngx_http_crowdsec_module.Usage.Push.{
  Upload, Answer, status, failed, Pushed, pushed, record_all, push_to_lapi, on_answer, send_items,
  uploaded, set_last_push,
}

-- Where the metrics are not pushed or nothing is counted nothing is sent; an answer that is no
-- success leaves what was counted, for the next push; and a success leaves of every counter what
-- was added while the upload was in flight.
abbrev pub Settled : Upload → ℕ → UsageMetrics → Option UsageMetrics × Pushed → Type 0
Settled u window_secs m (after, result) =
    ((after ≡ some m)
      × (result ≡ pushed)
      × ((window_secs ≡ 0) ⊎ ((k : BucketKey) → IsCumulative k → tally k m.buckets ≡ 0)))
    ⊎ ((after ≡ record_all u.meanwhile (some m)) × (result ≢ pushed))
    ⊎ ((result ≡ pushed)
        × ((m' : UsageMetrics) × (after ≡ some m') × IsTable m' × (m'.last_push_unix_secs ≡ u.now))
        × ((k : BucketKey)
            → IsCumulative k
            → tally_of k after + tally k m.buckets ≡ tally_of k (record_all u.meanwhile (some m))))

all_zero-reported :
    (k : BucketKey) (items : List Item)
    → all (λ (i : Item). i.1 == 0) items ≡ true
    → reported k items ≡ 0
unfolding reported
all_zero-reported k [] h = refl
all_zero-reported k ((key, n) ∷ items) h = ground (arith, all_zero-reported k items)

module _ (u : Upload) (lapi_url : Text) (window_secs : ℕ) (store : Option ShmData)
    (m : UsageMetrics) (t : IsTable m) (f : Fits u.meanwhile m.bucket_count m.buckets) where
  abbrev items : List Item
  items = collect_items store u.now (some m)

  abbrev counted : UsageMetrics
  counted = with_buckets m (inc_all u.meanwhile m.bucket_count m.buckets)

  grown :
      IsValid m.bucket_count counted.buckets
      × ((k : BucketKey) → tally k m.buckets ≤ tally k counted.buckets)
  grown = inc_all-grows u.meanwhile m.bucket_count m.buckets t.valid f

  drained :
      IsValid m.bucket_count (reset_items items m.bucket_count counted.buckets)
      × ((k : BucketKey)
          → IsCumulative k
          → tally k (reset_items items m.bucket_count counted.buckets) + reported k items
            ≡ tally k counted.buckets)
  drained =
      reset_items-TakenOff items m.bucket_count counted.buckets (grown.0)
        (λ k c. omega (arith, grown.1 k, collect_items-tally store u.now m k t c))

  abbrev left : UsageMetrics
  left = record counted {
    buckets = reset_items items m.bucket_count counted.buckets;
    last_push_unix_secs = u.now;
  }

  left-IsTable : IsTable left
  left-IsTable = record { magic = t.magic; version = t.version; valid = drained.0 }

  counted-IsTable : IsTable counted
  counted-IsTable = with_buckets-IsTable m _ t grown.0

  success :
      set_last_push u.now (reset_after_push items (record_all u.meanwhile (some m))) ≡ some left
  success =
      ap (λ z. set_last_push u.now (reset_after_push items z)) (record_all-some u.meanwhile m t f)
      ∙ ap (set_last_push u.now) (reset_after_push-some items counted counted-IsTable)
      ∙ set_last_push-some u.now _ (with_buckets-IsTable counted _ counted-IsTable drained.0)

  tally_of-some :
      (k : BucketKey) (n : UsageMetrics) → IsTable n → tally_of k (some n) ≡ tally k n.buckets
  unfolding header_ptr
  tally_of-some k n i = ground (arith, i.magic, i.version)

  conserved :
      (k : BucketKey)
      → IsCumulative k
      → tally_of k (some left) + tally k m.buckets ≡ tally_of k (record_all u.meanwhile (some m))
  conserved k c =
      rw
        (
          record_all-some u.meanwhile m t f,
          tally_of-some k left left-IsTable,
          tally_of-some k counted counted-IsTable,
        )
        (omega (arith, drained.1 k c, collect_items-tally store u.now m k t c))

  on_answer-Settled :
      (a : Answer)
      → Settled u window_secs m (on_answer u.now items a (record_all u.meanwhile (some m)))
  on_answer-Settled (failed e) = inr (inl (refl, λ x. absurd (ground arith)))
  on_answer-Settled (status n) = elim (Bool-cases (leb 200 n && ltb n 300)) [
    | inl y ↦ rw y (rw success (inr (inr (refl, (left, refl, left-IsTable, refl), conserved))))
    | inr o ↦ rw o (inr (inl (refl, λ x. absurd (ground arith))))
  ]

  send_items-Settled : Settled u window_secs m (send_items u lapi_url window_secs m items (some m))
  send_items-Settled = elim (Bool-cases (all (λ (i : Item). i.1 == 0) items)) [
    | inl z ↦ rw z (
        inl (
          refl,
          refl,
          inr (λ k c. sym (collect_items-tally store u.now m k t c) ∙ all_zero-reported k items z),
        ))
    | inr o ↦ rw o (on_answer-Settled (uploaded u lapi_url window_secs m items))
  ]

  push_zero :
      (window_secs == 0) ≡ true
      → push_to_lapi u lapi_url window_secs store (some m) ≡ (some m, pushed)
  unfolding push_to_lapi
  push_zero z = rw z refl

  push_some :
      (window_secs == 0) ≡ false
      → push_to_lapi u lapi_url window_secs store (some m)
        ≡ send_items u lapi_url window_secs m items (some m)
  unfolding push_to_lapi
  push_some o =
      rw
        (
          o,
          (==_iff m.magic usage_magic).1 t.magic,
          (==_iff m.layout_version usage_layout_version).1 t.version,
        )
        refl

  -- On a table of this module that keeps its invariant, and where what is counted during the
  -- upload has keys of labels and overflows no counter: where the metrics are not pushed or
  -- nothing is counted, the push changes nothing; after a failure or an answer that is no success
  -- the table is what the counting alone makes of it; and after a success the time of the push is
  -- stored and each counter that the table keeps is less by exactly what it was when the report
  -- was made.
  pub push_to_lapi-Settled :
      Settled u window_secs m (push_to_lapi u lapi_url window_secs store (some m))
  push_to_lapi-Settled = elim (Bool-cases (window_secs == 0)) [
    | inl z ↦ rw (push_zero z) (inl (refl, refl, inl ((==_iff window_secs 0).0 z)))
    | inr o ↦ rw (push_some o) send_items-Settled
  ]
