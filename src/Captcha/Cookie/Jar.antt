-- ===== src/Captcha/Cookie/Jar.antt =====
-- A cookie that a browser sends back is found again, whatever other cookies it sends.
use mathlib.Core.List.{reverse, reverse-cons, reverse-reverse}
use ngx_http_crowdsec_module.Base.{
  ℕ, ◌≡◌, refl, Bool, true, false, not, ◌&&◌, Option, none, some, List, [], ◌∷◌, ◌++◌, ◌==◌,
  if◌then◌else◌, bytes_eq, all, arith,
}
use ngx_http_crowdsec_module.Base.Split.{split-append, split_plain}
use ngx_http_crowdsec_module.Base.Text.{
  Text, trim, trim_start, is_whitespace, split, on_first, split_once, contains_char,
}
use ngx_http_crowdsec_module.Captcha.Cookie.{named_value, first_some, cookie_in, parse_cookie_value}

-- What a name and a value are made of: no white space, no semicolon, and no equals sign in a name.
abbrev pub is_clean : ℕ → Bool
is_clean c = not (is_whitespace c) && not (c == b';')

abbrev pub is_clean_cookie : Text × Text → Bool
is_clean_cookie (k, v) = all is_clean k && not (contains_char b'=' k) && all is_clean v

-- The header that a browser sends for its cookies.
abbrev pub cookie_text : Text × Text → Text
cookie_text (k, v) = k ++ (b'=' ∷ v)

abbrev pub header_of : List (Text × Text) → Text
header_of [] = []
header_of (c ∷ []) = cookie_text c
header_of (c ∷ d ∷ rest) = cookie_text c ++ (b';' ∷ 32 ∷ header_of (d ∷ rest))

abbrev pub value_of : List (Text × Text) → Text → Option Text
value_of [] name = none
value_of ((k, v) ∷ rest) name = if bytes_eq k name then some v else value_of rest name

all_append : (p : ℕ → Bool) (s t : Text) → all p (s ++ t) ≡ (all p s && all p t)
all_append p [] t = refl
all_append p (c ∷ s) t = ground (arith, all_append p s t)

all-reverse : (p : ℕ → Bool) (s : Text) → all p s ≡ true → all p (reverse s) ≡ true
all-reverse p [] h = refl
all-reverse p (c ∷ s) h =
    rw (reverse-cons c s, all_append p (reverse s) (c ∷ [])) (ground (arith, all-reverse p s))

trim_start_clean : (s : Text) → all is_clean s ≡ true → trim_start s ≡ s
trim_start_clean [] h = refl
trim_start_clean (c ∷ s) h = let dark : is_whitespace c ≡ false = ground arith in rw dark refl

trim_clean : (s : Text) → all is_clean s ≡ true → trim s ≡ s
unfolding trim
trim_clean s h =
    rw (trim_start_clean s h, trim_start_clean (reverse s) (all-reverse is_clean s h))
      (reverse-reverse s)

trim_space : (s : Text) → trim (32 ∷ s) ≡ trim s
unfolding trim
trim_space s = refl

split_once_at :
    (sep : ℕ) (k v : Text)
    → contains_char sep k ≡ false
    → split_once sep (k ++ (sep ∷ v)) ≡ some (k, v)
unfolding split_once contains_char
split_once_at sep [] v h =
    let same : (sep == sep) ≡ true = ground arith in rw (same, split_once) refl
split_once_at sep (c ∷ k) v h =
    let other : (c == sep) ≡ false = ground arith in
    rw (other, split_once_at sep k v (ground arith), split_once) refl

clean_plain : (s : Text) → all is_clean s ≡ true → contains_char b';' s ≡ false
unfolding contains_char
clean_plain [] h = refl
clean_plain (c ∷ s) h = ground (arith, clean_plain s)

cookie_text_clean :
    (k v : Text) → is_clean_cookie (k, v) ≡ true → all is_clean (cookie_text (k, v)) ≡ true
unfolding is_whitespace
cookie_text_clean k v h = rw (all_append is_clean k (b'=' ∷ v)) (ground arith)

named_value_text :
    (k v name : Text)
    → is_clean_cookie (k, v) ≡ true
    → named_value name (split_once b'=' (trim (cookie_text (k, v))))
      ≡ (if bytes_eq k name then some v else none)
named_value_text k v name h =
    let ck : all is_clean k ≡ true = ground arith in
    let cv : all is_clean v ≡ true = ground arith in
    let one : contains_char b'=' k ≡ false = ground arith in
    rw
      (
        trim_clean (cookie_text (k, v)) (cookie_text_clean k v h),
        split_once_at b'=' k v one,
        trim_clean k ck,
        trim_clean v cv,
      )
      refl

-- The space behind a semicolon does not matter.
cookie_in_space :
    (ts : List Text) (name : Text)
    → cookie_in (on_first (λ (t : Text). 32 ∷ t) ts) name ≡ cookie_in ts name
cookie_in_space [] name = refl
cookie_in_space (t ∷ ts) name = rw (trim_space t) refl

split_space : (s : Text) → split b';' (32 ∷ s) ≡ on_first (λ (t : Text). 32 ∷ t) (split b';' s)
unfolding split
split_space s = refl

first_some_if :
    (b : Bool) (v : Text) (o : Option Text)
    → first_some (if b then some v else none) o ≡ (if b then some v else o)
first_some_if true v o = refl
first_some_if false v o = refl

if_none :
    (b : Bool) (v : Text)
    → first_some (if b then some v else none) none ≡ (if b then some v else none)
if_none true v = refl
if_none false v = refl

-- In a header of cookies whose names and values have no white space and no semicolon, the names no
-- equals sign, parse_cookie_value finds the value of the first cookie with the name, or none where
-- there is none.
pub parse_cookie_value-value_of :
    (jar : List (Text × Text)) (name : Text)
    → all is_clean_cookie jar ≡ true
    → parse_cookie_value (header_of jar) name ≡ value_of jar name
unfolding parse_cookie_value
parse_cookie_value-value_of [] name h = unfold split split_once trim in refl
parse_cookie_value-value_of ((k, v) ∷ []) name h =
    let clean : is_clean_cookie (k, v) ≡ true = ground arith in
    rw
      (
        split_plain b';' (cookie_text (k, v)) (clean_plain _ (cookie_text_clean k v clean)),
        named_value_text k v name clean,
      )
      (if_none (bytes_eq k name) v)
parse_cookie_value-value_of ((k, v) ∷ d ∷ rest) name h =
    let clean : is_clean_cookie (k, v) ≡ true = ground arith in
    let later = parse_cookie_value-value_of (d ∷ rest) name (ground arith) in
    rw
      (
        split-append b';' (cookie_text (k, v)) (32 ∷ header_of (d ∷ rest)),
        split_plain b';' (cookie_text (k, v)) (clean_plain _ (cookie_text_clean k v clean)),
        split_space (header_of (d ∷ rest)),
        cookie_in_space (split b';' (header_of (d ∷ rest))) name,
        named_value_text k v name clean,
        later,
      )
      (first_some_if (bytes_eq k name) v (value_of (d ∷ rest) name))
