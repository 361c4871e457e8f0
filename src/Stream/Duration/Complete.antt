-- ===== src/Stream/Duration/Complete.antt =====
-- What reads as a positive number of seconds is accepted by `parse_duration`, and other characters
-- are not.
use native.Mathlib.Nat.{zero-add, le-mul_of_pos_right}
use ngx_http_crowdsec_module.Base.{
  ℕ, ◌+◌, ◌-◌, ◌*◌, ◌≤◌, ◌<◌, ◌≡◌, refl, ap, sym, ◌∙◌, inl, inr, Bool, true, false, not, none, some,
  is_none, List, [], ◌∷◌, ◌++◌, ltb, leb, any, ◌&&◌, ◌||◌, arith, Option-cases,
}
use ngx_http_crowdsec_module.Base.Text.{Text, trim, is_ascii_digit, utf8}
use ngx_http_crowdsec_module.Base.Words.{i64_max}
use ngx_http_crowdsec_module.Stream.Duration.{
  multiplier, next_number, next_total, total_of, parse_duration,
}
use ngx_http_crowdsec_module.Stream.Duration.Reads.{
  UnitSeconds, hours, minutes, single, value_from, value_from-le, AreDigits, Reads, nothing,
  seconds, part, duration_of-total_of, parse_duration-Reads, append_nil,
}

next_number-some :
    (n b : ℕ) → n * 10 + (b - b'0') ≤ i64_max → next_number n b ≡ some (n * 10 + (b - b'0'))
next_number-some n b le =
    let tens : leb (n * 10) i64_max ≡ true = ground arith in
    let sum : leb (n * 10 + (b - b'0')) i64_max ≡ true = ground arith in rw (tens, sum) refl

-- The loop over the digits of one number.
total_of_digits :
    (d : ℕ) (ds rest : List ℕ) (total n : ℕ) (h : Bool)
    → AreDigits (d ∷ ds)
    → value_from n (d ∷ ds) ≤ i64_max
    → total_of ((d ∷ ds) ++ rest) total n h ≡ total_of rest total (value_from n (d ∷ ds)) true
total_of_digits d [] rest total n h a le =
    let digit : is_ascii_digit d ≡ true = ground arith in rw (digit, next_number-some n d le) refl
total_of_digits d (d' ∷ ds) rest total n h a le =
    let digit : is_ascii_digit d ≡ true = ground arith in
    let n' = n * 10 + (d - b'0') in
    let number = next_number-some n d (omega (arith, value_from-le n' (d' ∷ ds))) in
    rw (digit, number) (total_of_digits d' ds rest total n' true (ground arith) le)

UnitSeconds-multiplier : {b m : ℕ} → UnitSeconds b m → multiplier b ≡ some m
unfolding multiplier
UnitSeconds-multiplier (hours b e) = rw e refl
UnitSeconds-multiplier (minutes b e) = rw e refl
UnitSeconds-multiplier (single b e) = rw e refl

unit-positive : (b m : ℕ) → multiplier b ≡ some m → (0 < m) × (is_ascii_digit b ≡ false)
unfolding multiplier is_ascii_digit
unit-positive b m e = ground arith

next_total-some :
    (total n b m : ℕ)
    → multiplier b ≡ some m
    → total + n * m ≤ i64_max
    → next_total total n b ≡ some (total + n * m)
next_total-some total n b m e le =
    let product : leb (n * m) i64_max ≡ true = ground arith in
    let sum : leb (total + n * m) i64_max ≡ true = ground arith in rw (e, product, sum) refl

Reads-total_of :
    {bs : List ℕ} {r : ℕ} (total : ℕ)
    → Reads bs r
    → total + r ≤ i64_max
    → total_of bs total 0 false ≡ some (total + r)
Reads-total_of total nothing le = ap some (omega arith)
Reads-total_of total (seconds d ds a) le =
    let v = value_from 0 (d ∷ ds) in
    let fits : leb (total + v) i64_max ≡ true = ground arith in
    let whole = ap (λ l. total_of l total 0 false) (sym (append_nil (d ∷ ds))) in
    whole ∙ total_of_digits d ds [] total 0 false a (omega arith) ∙ rw fits refl
Reads-total_of total (part d ds b m rest r a u reads) le =
    let unit = UnitSeconds-multiplier u in
    let v = value_from 0 (d ∷ ds) in
    let (pos, no_digit) = unit-positive b m unit in
    let grows = le-mul_of_pos_right v pos in
    total_of_digits d ds (b ∷ rest) total 0 false a (omega (arith, grows))
    ∙ rw (no_digit, next_total-some total v b m unit (omega arith))
        (Reads-total_of (total + v * m) reads (omega arith) ∙ ap some (omega arith))

-- Numbers with the units h of 3600 seconds, m of 60 and s of one, and perhaps a number of seconds
-- without a unit at the end, whose sum is positive and at most 2^63 - 1, parse to that sum.
pub Reads-parse_duration :
    (s : Text) (r : ℕ) → Reads (utf8 (trim s)) r → 0 < r → r ≤ i64_max → parse_duration s ≡ some r
unfolding parse_duration
Reads-parse_duration s r reads pos le =
    let bs = utf8 (trim s) in
    let p : ltb 0 r ≡ true = ground arith in
    duration_of-total_of bs ∙ rw (Reads-total_of 0 reads (omega arith)) (rw (zero-add r, p) refl)

-- Bytes that are neither digits nor units.
abbrev pub is_foreign : ℕ → Bool
is_foreign b = not (is_ascii_digit b) && is_none (multiplier b)

any_append : (p : ℕ → Bool) (xs ys : List ℕ) → any p (xs ++ ys) ≡ (any p xs || any p ys)
any_append p [] ys = refl
any_append p (x ∷ xs) ys = ground (arith, any_append p xs ys)

digits_known : (ds : List ℕ) → AreDigits ds → any is_foreign ds ≡ false
digits_known [] h = refl
digits_known (d ∷ ds) h = ground (arith, digits_known ds)

no_foreign : {bs : List ℕ} {r : ℕ} → Reads bs r → any is_foreign bs ≡ false
no_foreign nothing = refl
no_foreign (seconds d ds a) = digits_known (d ∷ ds) a
no_foreign (part d ds b m rest r a u reads) =
    let unit = UnitSeconds-multiplier u in
    any_append is_foreign (d ∷ ds) (b ∷ rest)
    ∙ rw (digits_known (d ∷ ds) a, unit, no_foreign reads) (ground arith)

-- A text of which a byte, the white space around it aside, is neither a digit nor one of h, m and
-- s, a decimal point for instance, is no duration.
pub parse_duration_foreign :
    (s : Text) → any is_foreign (utf8 (trim s)) ≡ true → parse_duration s ≡ none
parse_duration_foreign s h = elim (Option-cases (parse_duration s)) [
  | inl e ↦ e
  | inr (r, e) ↦
      let (reads, pos, le) = parse_duration-Reads s r e in
      let known = no_foreign reads in absurd (ground arith)
]
