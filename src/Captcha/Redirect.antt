-- ===== src/Captcha/Redirect.antt =====
-- src/captcha/redirect.rs: where a visitor is sent back to, and what may stand in a header.
pub mod Safe
use ngx_http_crowdsec_module.Base.{
  ℕ, Bool, true, false, not, ◌&&◌, ◌||◌, List, [], ◌∷◌, leb, ◌==◌, if◌then◌else◌, length, all, any,
}
use ngx_http_crowdsec_module.Base.Text.{
  Text, codes, within, trim, starts_with, contains, is_ascii_digit, utf8,
}

-- The characters that `contains(['\\', '\r', '\n'])` looks for.
abbrev pub is_banned : ℕ → Bool
is_banned c = c == 92 || c == 13 || c == 10

abbrev pub is_return_uri : Text → Bool
is_return_uri uri =
    starts_with (codes "/") uri
    && not (starts_with (codes "//") uri)
    && not (any is_banned uri)
    && not (contains (codes "://") uri)

unfoldable pub sanitize_return_uri : Text → Text
unfolding trim starts_with contains
sanitize_return_uri raw = let uri = trim raw in if is_return_uri uri then uri else codes "/"

unfoldable pub is_safe_header_value : Text → Bool
is_safe_header_value [] = false
is_safe_header_value (c ∷ s) = not (any (λ x. x == 13 || x == 10) (c ∷ s))

abbrev is_name_byte : ℕ → Bool
is_name_byte b =
    (is_ascii_digit b || within b'A' b'Z' b || within b'a' b'z' b) || b == b'-' || b == b'_'

abbrev is_name : List ℕ → Bool
is_name [] = false
is_name (b ∷ bs) = leb (length (b ∷ bs)) 64 && all is_name_byte (b ∷ bs)

-- A text is empty exactly if it has no bytes.
unfoldable pub is_cookie_name : Text → Bool
unfolding is_ascii_digit utf8
is_cookie_name name = is_name (utf8 name)
