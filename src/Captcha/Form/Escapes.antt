-- ===== src/Captcha/Form/Escapes.antt =====
-- What is escaped for a form is read back.
use ngx_http_crowdsec_module.Base.{
  ℕ, ◌/◌, ◌%◌, ◌<◌, ◌≡◌, refl, ap, ◌∙◌, inl, inr, Bool, true, false, some, [], ◌∷◌, ◌++◌, ltb, ◌==◌,
  all, arith, Bool-cases,
}
use ngx_http_crowdsec_module.Base.Text.{Text, utf8_char}
use ngx_http_crowdsec_module.Captcha.Form.{
  is_unreserved, hex_upper, escape, url_encode, hex_value, from_hex, plain_char, url_decode,
}

abbrev pub is_ascii : ℕ → Bool
is_ascii c = ltb c 128

hex_value-hex_upper : (n : ℕ) → n < 16 → hex_value (hex_upper n) ≡ some n
hex_value-hex_upper n h = ground arith

from_hex-hex_upper : (c : ℕ) → c < 256 → from_hex (hex_upper (c / 16)) (hex_upper (c % 16)) ≡ some c
from_hex-hex_upper c h =
    let digit : (hex_upper (c / 16) == b'+') ≡ false = ground arith in
    rw
      (
        digit,
        hex_value-hex_upper (c / 16) (omega arith),
        hex_value-hex_upper (c % 16) (omega arith),
      )
      (ap some (omega arith))

-- A character that is no percent sign is decoded by itself.
url_decode_plain :
    (c : ℕ) (s : Text) → (c == b'%') ≡ false → url_decode (c ∷ s) ≡ plain_char c ∷ url_decode s
unfolding url_decode
url_decode_plain c [] h = refl
url_decode_plain c (x ∷ []) h = rw (h, url_decode) refl
url_decode_plain c (x ∷ y ∷ s) h = rw (h, url_decode) refl

url_decode-escape :
    (c : ℕ) (s : Text) → c < 128 → url_decode (escape (utf8_char c) ++ s) ≡ c ∷ url_decode s
unfolding url_decode
url_decode-escape c s h =
    let small : ltb c 0x80 ≡ true = ground arith in
    rw (small, from_hex-hex_upper c (omega arith)) refl

unreserved-plain : (c : ℕ) → is_unreserved c ≡ true → ((c == b'%') ≡ false) × (plain_char c ≡ c)
unreserved-plain c h = ground arith

-- An ASCII text that is escaped for a form is decoded to itself.
pub url_decode-url_encode : (s : Text) → all is_ascii s ≡ true → url_decode (url_encode s) ≡ s
unfolding url_encode
url_decode-url_encode [] h = unfold url_decode in refl
url_decode-url_encode (c ∷ s) h =
    let rest = url_decode-url_encode s (ground arith) in
    elim (Bool-cases (is_unreserved c)) [
      | inl e ↦
          let (other, same) = unreserved-plain c e in
          rw e (url_decode_plain c (url_encode s) other ∙ rw (same, rest) refl)
      | inr e ↦ rw e (url_decode-escape c (url_encode s) (ground arith) ∙ rw rest refl)
    ]
