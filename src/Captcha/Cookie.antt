-- ===== src/Captcha/Cookie.antt =====
-- src/captcha/cookie.rs: the cookie that holds the session. A request is what the code reads of it:
-- its cookie headers and its headers where these are texts, and whether the connection is
-- encrypted. The decimal digits that `format!` prints are a parameter.
pub mod Jar
use ngx_http_crowdsec_module.Base.{
  ℕ, Bool, true, false, ◌&&◌, ◌||◌, Option, none, some, List, [], ◌∷◌, ◌++◌, if◌then◌else◌,
  bytes_eq, any,
}
use ngx_http_crowdsec_module.Base.Text.{
  Text, codes, trim, split, split_once, starts_with, eq_ignore_ascii_case,
}
use ngx_http_crowdsec_module.Captcha.Config.{CookieSecure, auto, on, off}

pub data SameSite : Type 0 where
  strict lax no_restriction : SameSite

abbrev pub same_site_text : SameSite → Text
same_site_text strict = codes "Strict"
same_site_text lax = codes "Lax"
same_site_text no_restriction = codes "None"

abbrev pub named_value : Text → Option (Text × Text) → Option Text
named_value name none = none
named_value name (some (key, value)) = if bytes_eq (trim key) name then some (trim value) else none

abbrev pub first_some {ℓ} : {A : Type ℓ} → Option A → Option A → Option A
first_some (some a) other = some a
first_some none other = other

-- The loop over the cookies of one header.
abbrev pub cookie_in : List Text → Text → Option Text
cookie_in [] name = none
cookie_in (cookie ∷ rest) name =
    first_some (named_value name (split_once b'=' (trim cookie))) (cookie_in rest name)

unfoldable pub parse_cookie_value : Text → Text → Option Text
unfolding split split_once trim bytes_eq
parse_cookie_value cookie_str name = cookie_in (split b';' cookie_str) name

-- What the code reads of a header of the request: whether its `hash` is set, its name where that is
-- a text that is not empty, and its value likewise.
pub record Header : Type 0 where
  pub is_set : Bool
  pub key : Option Text
  pub value : Option Text

abbrev pub cookie_of : Header → Text → Option Text
cookie_of h name = elim (h.value) [
  | none ↦ none
  | some cookie_str ↦ if h.is_set then parse_cookie_value cookie_str name else none
]

-- The list of the cookie headers, empty for a request that is null.
unfoldable pub get_cookie : List Header → Text → Option Text
unfolding parse_cookie_value
get_cookie [] name = none
get_cookie (h ∷ rest) name = first_some (cookie_of h name) (get_cookie rest name)

unfoldable pub cookie_attr_suffix : Bool → Bool → SameSite → Text
cookie_attr_suffix secure http_only same_site =
    (if secure then codes "; Secure" else [])
    ++ (if http_only then codes "; HttpOnly" else [])
    ++ codes "; SameSite="
    ++ same_site_text same_site

unfoldable pub build_set_cookie :
    (ℕ → Text) → Text → Text → ℕ → Text → Bool → Bool → SameSite → Text
unfolding cookie_attr_suffix
build_set_cookie decimal name value max_age path secure http_only same_site =
    name
    ++ codes "="
    ++ value
    ++ codes "; Max-Age="
    ++ decimal max_age
    ++ codes "; Path="
    ++ path
    ++ cookie_attr_suffix secure http_only same_site

unfoldable pub build_clear_cookie_with_attrs : Text → Text → Bool → Bool → SameSite → Text
unfolding cookie_attr_suffix
build_clear_cookie_with_attrs name path secure http_only same_site =
    name
    ++ codes "=; Max-Age=0; Path="
    ++ path
    ++ codes "; Expires=Thu, 01 Jan 1970 00:00:00 GMT"
    ++ cookie_attr_suffix secure http_only same_site

abbrev is_set_cookie_of : Text → Option Text × Option Text → Bool
is_set_cookie_of prefix (some k, some v) =
    eq_ignore_ascii_case k (codes "Set-Cookie") && starts_with prefix v
is_set_cookie_of prefix _ = false

-- The names and values of `headers_out`, where these are texts.
unfoldable pub response_has_set_cookie : List (Option Text × Option Text) → Text → Bool
unfolding eq_ignore_ascii_case starts_with
response_has_set_cookie headers_out name = any (is_set_cookie_of (name ++ codes "=")) headers_out

abbrev header_named : Option Text → Text → Option Text → Option Text
header_named none name value = none
header_named (some key) name value = if eq_ignore_ascii_case key name then value else none

-- A header with the name, but without a value that is a text, is passed over.
unfoldable pub get_header : List Header → Text → Option Text
unfolding eq_ignore_ascii_case
get_header [] name = none
get_header (h ∷ rest) name = first_some (header_named (h.key) name (h.value)) (get_header rest name)

abbrev is_some_like : Text → Option Text → Bool
is_some_like expected none = false
is_some_like expected (some value) = eq_ignore_ascii_case value expected

-- A request with its headers; `ssl` says whether its own connection is encrypted, and `from_proxy`
-- what `forwarded_proto_trusted` says of its peer.
unfoldable pub is_https : Bool → Bool → List Header → Bool
unfolding get_header
is_https ssl from_proxy headers =
    ssl
    || from_proxy
      && (is_some_like (codes "https") (get_header headers (codes "X-Forwarded-Proto"))
          || is_some_like (codes "on") (get_header headers (codes "X-Forwarded-Ssl")))

unfoldable pub should_cookie_be_secure : CookieSecure → Bool → Bool → List Header → Bool
unfolding is_https
should_cookie_be_secure auto ssl from_proxy headers = is_https ssl from_proxy headers
should_cookie_be_secure on ssl from_proxy headers = true
should_cookie_be_secure off ssl from_proxy headers = false
