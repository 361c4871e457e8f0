-- ===== src/Base/Split.antt =====
-- Splitting a text at a character, and trimming it.
use Prim.Native.Nat.{ℕ}
use mathlib.Core.Path.{◌≡◌, refl}
use mathlib.Core.Logic.{inl, inr}
use mathlib.Core.Bool.{true, false}
use mathlib.Core.List.{List, [], ◌∷◌, ◌++◌}
use native.Mathlib.Omega.{arith}
use ngx_http_crowdsec_module.Base.Tests.{◌==◌, Bool-cases}
use ngx_http_crowdsec_module.Base.Text.{Text, split, contains_char}

split-cases : (sep : ℕ) (s : Text) → (t : Text) × (ts : List Text) × (split sep s ≡ t ∷ ts)
unfolding split
split-cases sep [] = ([], [], refl)
split-cases sep (c ∷ s) =
    let (t, ts, e) = split-cases sep s in
    elim (Bool-cases (c == sep)) [
      | inl b ↦ ([], split sep s, rw b)
      | inr b ↦ (c ∷ t, ts, rw (b, e))
    ]

pub split-append : (sep : ℕ) (s t : Text) → split sep (s ++ (sep ∷ t)) ≡ split sep s ++ split sep t
unfolding split
split-append sep [] t = let b : (sep == sep) ≡ true = ground arith in rw b
split-append sep (c ∷ s) t =
    let (first, rest, e) = split-cases sep s in
    rw (split-append sep s t) (elim (Bool-cases (c == sep)) [ inl b ↦ rw b | inr b ↦ rw (b, e) ])

-- A text without the separator is one piece.
pub split_plain : (sep : ℕ) (s : Text) → contains_char sep s ≡ false → split sep s ≡ s ∷ []
unfolding split contains_char
split_plain sep [] h = refl
split_plain sep (c ∷ s) h =
    let other : (c == sep) ≡ false = ground arith in
    rw (split_plain sep s (ground arith), other) refl
