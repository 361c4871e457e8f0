-- ===== src/Usage/Reports.antt =====
-- A report holds what the table counts, and a push that the LAPI takes leaves what was counted since.
use ngx_http_crowdsec_module.Base.{
  ℕ, suc, ◌+◌, ◌≤◌, ◌<◌, ◌≡◌, ◌≢◌, refl, sym, ap, ◌∙◌, ◌⊎◌, inl, inr, ◌||◌, Option, none, some,
  List, [], ◌∷◌, ◌++◌, ◌==◌, ==_iff, length, arith, false≢true, Bool-cases, take, filter_map,
  prepend,
}
use ngx_http_crowdsec_module.Shm.Counters.{OriginCount, count_active_decisions_by_origin}
use ngx_http_crowdsec_module.Shm.State.{ShmData}
use ngx_http_crowdsec_module.Usage.{
  BucketKey, UsageBucket, UsageMetrics, key_of, kind_active, header_ptr, usage_magic,
  usage_layout_version, from_labels, origin_label,
}
use ngx_http_crowdsec_module.Usage.Items.{
  Item, key_eq, reset_one, reset_items, item_of, add_entry, active_rows, active_items,
  collect_items,
}
use ngx_http_crowdsec_module.Usage.Keys.{IsKey, relabelled, key_eq_iff, take-all}
use ngx_http_crowdsec_module.Usage.Counts.{at, weight, tally, IsValid}
use ngx_http_crowdsec_module.Usage.Records.{share}
use ngx_http_crowdsec_module.Usage.Drains.{reset_one-TakenOff}

-- What a list of items says of a key.
unfoldable pub reported : BucketKey → List Item → ℕ
unfolding key_eq
reported k [] = 0
reported k ((key, n) ∷ items) = share k key n + reported k items

-- A key of the counters that the table keeps.
abbrev pub IsCumulative : BucketKey → Type 0
IsCumulative k = k.kind ≢ kind_active

share_other : (k key : BucketKey) (n : ℕ) → key ≢ k → share k key n ≡ 0
share_other k key n d = ground (arith, key_eq_iff key k)

share_self : (k : BucketKey) (n : ℕ) → share k k n ≡ n
share_self k n = rw ((key_eq_iff k k).1 refl) refl

share_active :
    (k key : BucketKey) (n : ℕ) → IsCumulative k → key.kind ≡ kind_active → share k key n ≡ 0
share_active k key n c a = share_other k key n (λ e. c (ap (λ (t : BucketKey). t.kind) (sym e) ∙ a))

-- What is taken off is covered by the counts.
abbrev pub Covered : List Item → List UsageBucket → Type 0
Covered items bs = (k : BucketKey) → IsCumulative k → reported k items ≤ tally k bs

pub reset_items-TakenOff :
    (items : List Item) (count : ℕ) (bs : List UsageBucket)
    → IsValid count bs
    → Covered items bs
    → IsValid count (reset_items items count bs)
      × ((k : BucketKey)
          → IsCumulative k
          → tally k (reset_items items count bs) + reported k items ≡ tally k bs)
unfolding reset_items reported
reset_items-TakenOff [] count bs v h = (v, λ k c. omega arith)
reset_items-TakenOff ((key, n) ∷ items) count bs v h = elim (Bool-cases (key.kind == kind_active)) [
  | inl a ↦
      let none_of =
        λ (k : BucketKey) (c : IsCumulative k). share_active k key n c ((==_iff _ _).0 a) in
      let (valid, off) = reset_items-TakenOff items count bs v (λ k c. omega (arith, h k c)) in
      rw a (valid, λ k c. omega (arith, off k c, none_of k c))
  | inr f ↦
      let c0 : IsCumulative key = λ e. false≢true (sym f ∙ (==_iff _ _).1 e) in
      let enough : n ≤ tally key bs = omega (arith, h key c0, share_self key n) in
      let (valid, off) = reset_one-TakenOff key n v enough in
      let (valid', off') =
        reset_items-TakenOff items count (reset_one key n count bs) valid
          (λ k c. omega (arith, h k c, off k)) in
      rw f (valid', λ k c. omega (arith, off' k c, off k))
]

pub reported-append :
    (k : BucketKey) (xs ys : List Item) → reported k (xs ++ ys) ≡ reported k xs + reported k ys
unfolding reported
reported-append k [] ys = omega arith
reported-append k ((key, n) ∷ xs) ys = omega (arith, reported-append k xs ys)

-- A bucket that is in use has a key that its labels give back.
abbrev Collectable : UsageBucket → Type 0
Collectable b = (b.key_hash ≡ 0 → b.ready ≡ 0) × (b.key_hash ≢ 0 → IsKey (key_of b))

item_of-cases :
    (b : UsageBucket)
    → Collectable b
    → ((item_of b ≡ none) × ((b.ready ≡ 0) ⊎ (b.value ≡ 0)))
      ⊎ ((item_of b ≡ some (key_of b, b.value)) × (b.ready ≢ 0))
unfolding item_of relabelled
item_of-cases b (unused, is_key) = elim (Bool-cases (b.key_hash == 0 || b.ready == 0)) [
  | inl e ↦ rw e (inl (refl, inl (ground (arith, unused))))
  | inr f ↦ elim (Bool-cases (b.value == 0)) [
    | inl z ↦ rw (f, z) (inl (refl, inr (ground arith)))
    | inr n ↦
        rw (f, n)
          (inr (
            ap (λ (t : BucketKey). some (t, b.value)) (is_key (ground arith)),
            λ r. absurd (ground arith),
          ))
  ]
]

reported-item_of :
    (k : BucketKey) (b : UsageBucket) (items : List Item)
    → Collectable b
    → reported k (prepend (item_of b) items) ≡ weight k b + reported k items
unfolding reported weight
reported-item_of k b items c = elim (item_of-cases b c) [
  | inl (e, inl r) ↦ rw e (ground arith)
  | inl (e, inr z) ↦ rw e (ground arith)
  | inr (e, r) ↦ rw e (ground arith)
]

reported-filter_map :
    (k : BucketKey) (bs : List UsageBucket)
    → ((i : ℕ) → i < length bs → Collectable (at bs i))
    → reported k (filter_map item_of bs) ≡ tally k bs
unfolding tally reported
reported-filter_map k [] h = refl
reported-filter_map k (b ∷ bs) h =
    reported-item_of k b (filter_map item_of bs) (h 0 (omega arith))
    ∙ ap (λ (t : ℕ). weight k b + t) (reported-filter_map k bs (λ i l. h (suc i) (omega arith)))

-- The gauges have keys of their own.
abbrev AreActive : List Item → Type 0
AreActive [] = Unit
AreActive ((key, _) ∷ items) = (key.kind ≡ kind_active) × AreActive items

reported-AreActive :
    (k : BucketKey) (items : List Item) → IsCumulative k → AreActive items → reported k items ≡ 0
unfolding reported
reported-AreActive k [] c a = refl
reported-AreActive k ((key, n) ∷ items) c (e, a) =
    omega (arith, share_active k key n c e, reported-AreActive k items c a)

add_entry-AreActive :
    (key : BucketKey) (n : ℕ) (rows : List Item)
    → key.kind ≡ kind_active
    → AreActive rows
    → AreActive (add_entry key n rows)
unfolding add_entry
add_entry-AreActive key n [] e a = (e, tt)
add_entry-AreActive key n ((k, v) ∷ rows) e (f, a) =
    ground (arith, add_entry-AreActive key n rows e a)

active_rows-AreActive :
    (store : Option ShmData) (cs : List OriginCount) (rows : List Item)
    → AreActive rows
    → AreActive (active_rows store cs rows)
active_rows-AreActive store [] rows a = a
active_rows-AreActive store (c ∷ cs) rows a =
    let key = from_labels kind_active c.family (origin_label store c.origin c.scenario_id) in
    let is_active : key.kind ≡ kind_active = unfold from_labels in refl in
    active_rows-AreActive store cs (add_entry key c.total rows)
      (add_entry-AreActive key c.total rows is_active a)

abbrev pub tally_of : BucketKey → Option UsageMetrics → ℕ
tally_of k zone = elim (header_ptr zone) [ none ↦ 0 | some m ↦ tally k m.buckets ]

-- The zone of this module, with a table that keeps the invariant.
pub record IsTable (m : UsageMetrics) : Type 0 where
  pub magic : m.magic ≡ usage_magic
  pub version : m.layout_version ≡ usage_layout_version
  pub valid : IsValid m.bucket_count m.buckets

pub header_ptr-some : (m : UsageMetrics) → IsTable m → header_ptr (some m) ≡ some m
unfolding header_ptr
header_ptr-some m t = ground (arith, t.magic, t.version)

collect_items-some :
    (store : Option ShmData) (now : ℕ) (m : UsageMetrics)
    → IsTable m
    → collect_items store now (some m)
      ≡ filter_map item_of (take m.bucket_count m.buckets) ++ active_items store now
unfolding collect_items
collect_items-some store now m t = ground (arith, t.magic, t.version)

active_items-AreActive : (store : Option ShmData) (now : ℕ) → AreActive (active_items store now)
unfolding active_items
active_items-AreActive store now =
    active_rows-AreActive store (count_active_decisions_by_origin store now) [] tt

-- The items of a push say of every counter that the table keeps exactly what the table, which
-- keeps its invariant, counts for it.
pub collect_items-tally :
    (store : Option ShmData) (now : ℕ) (m : UsageMetrics) (k : BucketKey)
    → IsTable m
    → IsCumulative k
    → reported k (collect_items store now (some m)) ≡ tally k m.buckets
collect_items-tally store now m k t c =
    let v = t.valid in
    rw
      (
        collect_items-some store now m t,
        take-all m.bucket_count m.buckets (omega (arith, v.sized)),
        reported-append k (filter_map item_of m.buckets) (active_items store now),
        reported-filter_map k m.buckets (λ i l.
            let h : i < m.bucket_count = omega (arith, v.sized) in
            (v.unused i h, λ n. (v.used i h n).is_key)),
        reported-AreActive k (active_items store now) c (active_items-AreActive store now),
      )
      (omega arith)
