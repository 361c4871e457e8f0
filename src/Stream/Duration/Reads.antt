-- ===== src/Stream/Duration/Reads.antt =====
-- What a duration that `parse_duration` accepts means.
use ngx_http_crowdsec_module.Base.{
  ℕ, ◌+◌, ◌-◌, ◌*◌, ◌≤◌, ◌<◌, ◌≡◌, refl, ap, sym, ◌∙◌, subst, inl, inr, Bool, true, false, some,
  ◌==◌, List, [], ◌∷◌, ◌++◌, ◌>>=◌, all, arith, Bool-cases, bind-some, none≢some,
}
use ngx_http_crowdsec_module.Base.Text.{Text, trim, is_ascii_digit, utf8}
use ngx_http_crowdsec_module.Base.Words.{i64_max}
use ngx_http_crowdsec_module.Stream.Duration.{
  checked, multiplier, next_number, next_total, total_of, positive, duration_of, parse_duration,
}

-- The number that decimal digits spell, behind the digits of `n`.
abbrev pub value_from : ℕ → List ℕ → ℕ
value_from n [] = n
value_from n (d ∷ ds) = value_from (n * 10 + (d - b'0')) ds

abbrev pub is_nonempty : List ℕ → Bool
is_nonempty [] = false
is_nonempty (_ ∷ _) = true

abbrev pub AreDigits : List ℕ → Type 0
AreDigits ds = all is_ascii_digit ds ≡ true

-- The units: an hour, a minute and a second.
pub data UnitSeconds : ℕ → ℕ → Type 0 where
  hours : (b : ℕ) → b ≡ 104 → UnitSeconds b 3600
  minutes : (b : ℕ) → b ≡ 109 → UnitSeconds b 60
  single : (b : ℕ) → b ≡ 115 → UnitSeconds b 1

-- Bytes that stand for a number of seconds: numbers with their units, and at the end perhaps one
-- without.
pub data Reads : List ℕ → ℕ → Type 0 where
  nothing : Reads [] 0
  seconds : (d : ℕ) (ds : List ℕ) → AreDigits (d ∷ ds) → Reads (d ∷ ds) (value_from 0 (d ∷ ds))
  part :
      (d : ℕ) (ds : List ℕ) (b m : ℕ) (rest : List ℕ) (r : ℕ)
      → AreDigits (d ∷ ds)
      → UnitSeconds b m
      → Reads rest r
      → Reads ((d ∷ ds) ++ (b ∷ rest)) (value_from 0 (d ∷ ds) * m + r)

value_from-snoc :
    (n : ℕ) (ds : List ℕ) (b : ℕ)
    → value_from n (ds ++ (b ∷ [])) ≡ value_from n ds * 10 + (b - b'0')
value_from-snoc n [] b = refl
value_from-snoc n (d ∷ ds) b = value_from-snoc (n * 10 + (d - b'0')) ds b

pub value_from-le : (n : ℕ) (ds : List ℕ) → n ≤ value_from n ds
value_from-le n [] = omega arith
value_from-le n (d ∷ ds) = omega (arith, value_from-le (n * 10 + (d - b'0')) ds)

AreDigits-snoc :
    (ds : List ℕ) (b : ℕ) → AreDigits ds → is_ascii_digit b ≡ true → AreDigits (ds ++ (b ∷ []))
AreDigits-snoc [] b h e = rw e
AreDigits-snoc (d ∷ ds) b h e = ground (arith, AreDigits-snoc ds b)

append_assoc_snoc : (ds : List ℕ) (b : ℕ) (bs : List ℕ) → (ds ++ (b ∷ [])) ++ bs ≡ ds ++ (b ∷ bs)
append_assoc_snoc [] b bs = refl
append_assoc_snoc (d ∷ ds) b bs = ap (◌∷◌ d) (append_assoc_snoc ds b bs)

pub append_nil : (xs : List ℕ) → xs ++ [] ≡ xs
append_nil [] = refl
append_nil (x ∷ xs) = ap (◌∷◌ x) (append_nil xs)

is_nonempty-snoc : (ds : List ℕ) (b : ℕ) → is_nonempty (ds ++ (b ∷ [])) ≡ true
is_nonempty-snoc [] b = refl
is_nonempty-snoc (d ∷ ds) b = refl

-- The rest of the loop, entered behind the digits `ds` of a number.
abbrev Sound : List ℕ → List ℕ → ℕ → ℕ → Type 0
Sound ds bs total r = (r' : ℕ) × (total + r' ≡ r) × Reads (ds ++ bs) r'

pending-Sound :
    (ds : List ℕ) (total r : ℕ)
    → AreDigits ds
    → total_of [] total (value_from 0 ds) (is_nonempty ds) ≡ some r
    → Sound ds [] total r
pending-Sound [] total r h e = (0, ground arith, nothing)
pending-Sound (d ∷ ds) total r h e = (
  value_from 0 (d ∷ ds),
  ground arith,
  subst (λ l. Reads l (value_from 0 (d ∷ ds))) (sym (append_nil (d ∷ ds))) (seconds d ds h),
)

digit-Sound :
    (ds : List ℕ) (b : ℕ) (bs : List ℕ) (total r : ℕ)
    → Sound (ds ++ (b ∷ [])) bs total r
    → Sound ds (b ∷ bs) total r
digit-Sound ds b bs total r (r', e, reads) =
    (r', e, subst (λ l. Reads l r') (append_assoc_snoc ds b bs) reads)

next_number-exact : (n b k : ℕ) → next_number n b ≡ some k → k ≡ n * 10 + (b - b'0')
next_number-exact n b k e =
    let (tens, at_tens, at_k) = bind-some (checked (n * 10)) (λ t. checked (t + (b - b'0'))) k e in
    ground arith

-- What a unit that is read says of the total.
Unit-next_total :
    (total n b t : ℕ)
    → next_total total n b ≡ some t
    → (m : ℕ) × (multiplier b ≡ some m) × (t ≡ total + n * m)
Unit-next_total total n b t e =
    let (m, at_m, rest) =
      bind-some (multiplier b) (λ m. checked (n * m) >>= λ p. checked (total + p)) t e in
    let (p, at_p, at_t) = bind-some (checked (n * m)) (λ p. checked (total + p)) t rest in
    (m, at_m, ground arith)

multiplier-UnitSeconds : (b m : ℕ) → multiplier b ≡ some m → UnitSeconds b m
unfolding multiplier
multiplier-UnitSeconds b m e = elim (Bool-cases (b == b'h')) [
  | inl h ↦ subst (UnitSeconds b) (ground arith) (hours b (ground arith))
  | inr f ↦ elim (Bool-cases (b == b'm')) [
    | inl h ↦ subst (UnitSeconds b) (ground arith) (minutes b (ground arith))
    | inr g ↦ subst (UnitSeconds b) (ground arith) (single b (ground arith))
  ]
]

unit-Sound :
    (b : ℕ) (bs ds : List ℕ) (total r : ℕ)
    → is_ascii_digit b ≡ false
    → AreDigits ds
    → total_of (b ∷ bs) total (value_from 0 ds) (is_nonempty ds) ≡ some r
    → ((t : ℕ) → total_of bs t 0 false ≡ some r → Sound [] bs t r)
    → Sound ds (b ∷ bs) total r
unit-Sound b bs [] total r u h e behind = absurd (none≢some (rw u at e))
unit-Sound b bs (d ∷ ds) total r u h e behind =
    let n = value_from 0 (d ∷ ds) in
    let (t, at_t, rest) =
      bind-some (next_total total n b) (λ t. total_of bs t 0 false) r (rw u at e) in
    let (m, at_m, t_is) = Unit-next_total total n b t at_t in
    let (r', sum, reads) = behind t rest in
    (n * m + r', omega arith, part d ds b m bs r' h (multiplier-UnitSeconds b m at_m) reads)

total_of-Sound :
    (bs ds : List ℕ) (total r : ℕ)
    → AreDigits ds
    → total_of bs total (value_from 0 ds) (is_nonempty ds) ≡ some r
    → Sound ds bs total r
total_of-Sound [] ds total r h e = pending-Sound ds total r h e
total_of-Sound (b ∷ bs) ds total r h e = elim (Bool-cases (is_ascii_digit b)) [
  | inl d ↦
      let (n, at_n, rest) =
        bind-some (next_number (value_from 0 ds) b) (λ n. total_of bs total n true) r (rw d at e) in
      let n_is = next_number-exact (value_from 0 ds) b n at_n ∙ sym (value_from-snoc 0 ds b) in
      digit-Sound ds b bs total r (
        total_of-Sound bs (ds ++ (b ∷ [])) total r (AreDigits-snoc ds b h d)
          (rw (is_nonempty-snoc ds b, sym n_is) rest))
  | inr u ↦ unit-Sound b bs ds total r u h e (λ t. total_of-Sound bs [] t r refl)
]

next_total-le : (total n b t : ℕ) → next_total total n b ≡ some t → t ≤ i64_max
next_total-le total n b t e =
    let (m, at_m, rest) =
      bind-some (multiplier b) (λ m. checked (n * m) >>= λ p. checked (total + p)) t e in
    let (p, at_p, at_t) = bind-some (checked (n * m)) (λ p. checked (total + p)) t rest in
    ground arith

-- A unit behind no number ends the loop; behind one it is checked.
unit-le :
    (b : ℕ) (bs : List ℕ) (total n r : ℕ) (h : Bool)
    → is_ascii_digit b ≡ false
    → total_of (b ∷ bs) total n h ≡ some r
    → ((t : ℕ) → t ≤ i64_max → total_of bs t 0 false ≡ some r → r ≤ i64_max)
    → r ≤ i64_max
unit-le b bs total n r false u e behind = absurd (none≢some (rw u at e))
unit-le b bs total n r true u e behind =
    let (t, at_t, rest) =
      bind-some (next_total total n b) (λ t. total_of bs t 0 false) r (rw u at e) in
    behind t (next_total-le total n b t at_t) rest

total_of-le :
    (bs : List ℕ) (total n r : ℕ) (h : Bool)
    → total ≤ i64_max
    → total_of bs total n h ≡ some r
    → r ≤ i64_max
total_of-le [] total n r true le e = ground arith
total_of-le [] total n r false le e = ground arith
total_of-le (b ∷ bs) total n r h le e = elim (Bool-cases (is_ascii_digit b)) [
  | inl d ↦
      let (k, at_k, rest) =
        bind-some (next_number n b) (λ k. total_of bs total k true) r (rw d at e) in
      total_of-le bs total k r true le rest
  | inr u ↦ unit-le b bs total n r h u e (λ t. total_of-le bs t 0 r false)
]

pub duration_of-total_of : (bs : List ℕ) → duration_of bs ≡ (total_of bs 0 0 false >>= positive)
duration_of-total_of [] = refl
duration_of-total_of (b ∷ bs) = refl

-- A duration that parses is a sequence of numbers with the units h, m and s, and perhaps one
-- without at the end, and the result is their sum, positive and at most 2^63 - 1.
pub parse_duration-Reads :
    (s : Text) (r : ℕ)
    → parse_duration s ≡ some r
    → Reads (utf8 (trim s)) r × (0 < r) × (r ≤ i64_max)
unfolding parse_duration
parse_duration-Reads s r e =
    let bs = utf8 (trim s) in
    let (t, at_t, at_r) =
      bind-some (total_of bs 0 0 false) positive r (sym (duration_of-total_of bs) ∙ e) in
    let (r', sum, reads) = total_of-Sound bs [] 0 t refl at_t in
    let le = total_of-le bs 0 0 t false (omega arith) at_t in
    let t_is : t ≡ r = ground arith in
    (subst (Reads bs) (omega arith) reads, ground arith, omega arith)
