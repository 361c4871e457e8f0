-- ===== src/Stream/Duration.antt =====
-- `parse_duration` of src/stream.rs: how long a decision holds, as the LAPI spells it. The numbers
-- of the loop are never negative, so that an `i64` is its value and only its upper end can be left.
pub mod Reads
pub mod Complete
use ngx_http_crowdsec_module.Base.{
  ℕ, ◌+◌, ◌-◌, ◌*◌, Bool, true, false, not, Option, none, some, List, [], ◌∷◌, ltb, leb, ◌==◌,
  if◌then◌else◌, ◌>>=◌,
}
use ngx_http_crowdsec_module.Base.Text.{Text, trim, is_ascii_digit, utf8}
use ngx_http_crowdsec_module.Base.Words.{i64_max}

-- `checked_add` and `checked_mul`, applied to the exact result.
abbrev pub checked : ℕ → Option ℕ
checked n = if leb n i64_max then some n else none

-- The seconds of `h`, `m` and `s`.
unfoldable pub multiplier : ℕ → Option ℕ
multiplier b =
    if b == b'h'
    then some 3600
    else if b == b'm'
    then some 60
    else if b == b's'
    then some 1
    else none

abbrev pub next_number : ℕ → ℕ → Option ℕ
next_number number b = do tens ← checked (number * 10); checked (tens + (b - b'0'))

abbrev pub next_total : ℕ → ℕ → ℕ → Option ℕ
next_total total number b = do m ← multiplier b; part ← checked (number * m); checked (total + part)

-- The loop with what follows it: the last number counts as seconds.
abbrev pub total_of : List ℕ → ℕ → ℕ → Bool → Option ℕ
total_of [] total number has_number = if has_number then checked (total + number) else some total
total_of (b ∷ bs) total number has_number =
    let go_on = λ (t n : ℕ) (h : Bool). total_of bs t n h in
    if is_ascii_digit b
    then (next_number number b >>= λ n. go_on total n true)
    else if not has_number
    then none
    else (next_total total number b >>= λ t. go_on t 0 false)

abbrev pub positive : ℕ → Option ℕ
positive total = if ltb 0 total then some total else none

abbrev pub duration_of : List ℕ → Option ℕ
duration_of [] = none
duration_of (b ∷ bs) = total_of (b ∷ bs) 0 0 false >>= positive

-- A text is empty exactly if it has no bytes.
unfoldable pub parse_duration : Text → Option ℕ
unfolding multiplier is_ascii_digit trim utf8
parse_duration s = duration_of (utf8 (trim s))
