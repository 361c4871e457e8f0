-- ===== src/RealIp.antt =====
-- The address of the client behind trusted proxies: src/realip.rs. The parsers of the standard
-- library are a parameter, and the request is what the code reads of it.
pub mod Trust
pub mod Walk
use ngx_http_crowdsec_module.Base.{
  ℕ, zero, suc, ◌-◌, ◌*◌, ◌%◌, ◌^◌, Bool, true, false, not, ◌&&◌, ◌||◌, Option, none, some, List,
  [], ◌∷◌, ltb, ◌==◌, if◌then◌else◌, bit_and, any, all, filter_map, get_or, length, ◌>>=◌, is_none,
}
use ngx_http_crowdsec_module.Base.Text.{
  Text, codes, trim, split_once, rsplit_once, split, before, contains_char, starts_with,
  is_ascii_digit, eq_ignore_ascii_case, utf8,
}
use ngx_http_crowdsec_module.Net.{IpAddr, v4, v6, from_be_bytes, canonicalize_ip}

-- `str::parse` at `IpAddr` and at `u32`.
pub record Parsers : Type 0 where
  pub parse_ip : Text → Option IpAddr
  pub parse_u32 : Text → Option ℕ

pub data TrustedCidr : Type 0 where
  cidr_v4 : ℕ → ℕ → TrustedCidr
  cidr_v6 : ℕ → ℕ → TrustedCidr

-- `u32::MAX << (32 - prefix_len)`: the bits that leave the word are lost.
unfoldable pub ipv4_mask : ℕ → ℕ
ipv4_mask prefix_len = if prefix_len == 0 then 0 else (2 ^ 32 - 1) * 2 ^ (32 - prefix_len) % 2 ^ 32

unfoldable pub ipv6_mask : ℕ → ℕ
ipv6_mask prefix_len =
    if prefix_len == 0 then 0 else (2 ^ 128 - 1) * 2 ^ (128 - prefix_len) % 2 ^ 128

-- The branch of `parse` for an address with a prefix length.
unfoldable pub cidr_of : IpAddr → ℕ → Option TrustedCidr
unfolding ipv4_mask ipv6_mask from_be_bytes
cidr_of (v4 o) plen =
    if ltb 32 plen
    then none
    else let mask = ipv4_mask plen in some (cidr_v4 (bit_and (from_be_bytes o) mask) mask)
cidr_of (v6 o) plen =
    if ltb 128 plen
    then none
    else let mask = ipv6_mask plen in some (cidr_v6 (bit_and (from_be_bytes o) mask) mask)

-- The branch of `parse` for a host.
unfoldable pub cidr_of_host : IpAddr → TrustedCidr
unfolding from_be_bytes
cidr_of_host (v4 o) = cidr_v4 (from_be_bytes o) (2 ^ 32 - 1)
cidr_of_host (v6 o) = cidr_v6 (from_be_bytes o) (2 ^ 128 - 1)

abbrev pub parse_trimmed : Parsers → Text → Option TrustedCidr
parse_trimmed std [] = none
parse_trimmed std (c ∷ s) = elim (split_once 47 (c ∷ s)) [
  | some (ip_s, plen_s) ↦ (do
    ip ← std.parse_ip (trim ip_s)
    plen ← std.parse_u32 (trim plen_s)
    cidr_of ip plen)
  | none ↦ (do ip ← std.parse_ip (c ∷ s); some (cidr_of_host ip))
]

-- `TrustedCidr::parse`
unfoldable pub parse : Parsers → Text → Option TrustedCidr
unfolding split_once trim cidr_of cidr_of_host
parse std s = parse_trimmed std (trim s)

-- The match of `contains` on an address that is already canonical.
abbrev pub contains_canonical : TrustedCidr → IpAddr → Bool
contains_canonical (cidr_v4 network mask) (v4 o) =
    bit_and (from_be_bytes o) mask == bit_and network mask
contains_canonical (cidr_v6 network mask) (v6 o) =
    bit_and (from_be_bytes o) mask == bit_and network mask
contains_canonical (cidr_v4 _ _) (v6 _) = false
contains_canonical (cidr_v6 _ _) (v4 _) = false

-- `TrustedCidr::contains`
unfoldable pub contains : TrustedCidr → IpAddr → Bool
unfolding canonicalize_ip from_be_bytes
contains cidr ip = contains_canonical cidr (canonicalize_ip ip)

-- `ip_in_cidr_list`, which has the body of `peer_in_trusted_list`.
unfoldable pub ip_in_cidr_list : IpAddr → List TrustedCidr → Bool
unfolding contains
ip_in_cidr_list ip cidrs = any (λ c. contains c ip) cidrs

unfoldable pub peer_in_trusted_list : IpAddr → List TrustedCidr → Bool
unfolding contains
peer_in_trusted_list ip trusted = any (λ t. contains t ip) trusted

-- `parse().ok().map(canonicalize_ip)`
abbrev pub parse_canonical : Parsers → Text → Option IpAddr
parse_canonical std s = do ip ← std.parse_ip s; some (canonicalize_ip ip)

abbrev pub host_of : Parsers → Text × Text → Option IpAddr
host_of std (host, port) =
    if not (contains_char 58 host) && all is_ascii_digit (utf8 port)
    then parse_canonical std host
    else none

-- The last attempt: an IPv4 address with a port.
abbrev pub without_port : Parsers → Text → Option IpAddr
without_port std no_zone = rsplit_once 58 no_zone >>= host_of std

-- A token without its white space; 91 and 93 are the brackets, 37 is the percent sign.
abbrev pub trimmed_token : Parsers → Text → Option IpAddr
trimmed_token std [] = none
trimmed_token std (c ∷ rest) =
    if c == 91
    then (do (inner, _) ← split_once 93 rest; parse_canonical std (before 37 inner))
    else let no_zone = before 37 (c ∷ rest) in
      elim (std.parse_ip no_zone) [
        | some ip ↦ some (canonicalize_ip ip)
        | none ↦ without_port std no_zone
      ]

unfoldable pub parse_forwarded_token : Parsers → Text → Option IpAddr
unfolding trim split_once before rsplit_once contains_char is_ascii_digit utf8 canonicalize_ip
parse_forwarded_token std tok = trimmed_token std (trim tok)

unfoldable pub parse_forwarded_chain : Parsers → Text → List IpAddr
unfolding split parse_forwarded_token
parse_forwarded_chain std value = filter_map (parse_forwarded_token std) (split 44 value)

-- What the code reads of a `sockaddr`: the family and the address of each family as it stands in
-- memory.
pub record Sockaddr : Type 0 where
  pub sa_family : ℕ
  pub sin_addr : List ℕ
  pub sin6_addr : List ℕ

-- What the code reads of a request: the socket address, unless the connection or its address is
-- null, and the names and values of the headers, where these are texts.
pub record Request : Type 0 where
  pub sockaddr : Option Sockaddr
  pub headers_in : List (Option Text × Option Text)

abbrev pub address_of : Sockaddr → Option IpAddr
address_of a =
    if a.sa_family == 2
    then some (v4 a.sin_addr)
    else if a.sa_family == 10
    then some (v6 a.sin6_addr)
    else none

unfoldable pub socket_peer_ip : Request → Option IpAddr
socket_peer_ip request = do sockaddr ← request.sockaddr; address_of sockaddr

-- The loop of `header_value_ci`.
abbrev pub first_header : Text → List (Option Text × Option Text) → Option Text
first_header name [] = none
first_header name ((none, v) ∷ rest) = first_header name rest
first_header name ((some key, v) ∷ rest) =
    let later = first_header name rest in if eq_ignore_ascii_case key name then v else later

unfoldable pub header_value_ci : Request → Text → Option Text
unfolding eq_ignore_ascii_case
header_value_ci request name = first_header name (request.headers_in)

-- The loop of `resolve_client_ip`, with `i` addresses left of the chain.
abbrev pub walk : List TrustedCidr → List IpAddr → IpAddr → ℕ → IpAddr
walk trusted chain first zero = first
walk trusted chain first (suc i) =
    let ip = get_or chain i first in
    let next = walk trusted chain first i in if peer_in_trusted_list ip trusted then next else ip

abbrev pub walk_chain : List TrustedCidr → IpAddr → List IpAddr → IpAddr
walk_chain trusted socket_ip [] = socket_ip
walk_chain trusted socket_ip (first ∷ rest) =
    walk trusted (first ∷ rest) first (length (first ∷ rest))

abbrev pub from_header : Parsers → List TrustedCidr → IpAddr → Option Text → IpAddr
from_header std trusted socket_ip none = socket_ip
from_header std trusted socket_ip (some raw) =
    walk_chain trusted socket_ip (parse_forwarded_chain std raw)

abbrev pub is_empty {ℓ} : {A : Type ℓ} → List A → Bool
is_empty [] = true
is_empty (_ ∷ _) = false

unfoldable pub resolve_client_ip : Parsers → IpAddr → List TrustedCidr → Option Text → IpAddr
unfolding peer_in_trusted_list parse_forwarded_chain
resolve_client_ip std socket_ip trusted header_value =
    if is_empty trusted || not (peer_in_trusted_list socket_ip trusted)
    then socket_ip
    else from_header std trusted socket_ip header_value

-- `crowdsec_real_ip_header`, or the default.
abbrev pub real_ip_header_or : Option Text → Text
real_ip_header_or (some name) = name
real_ip_header_or none = codes "X-Forwarded-For"

unfoldable pub get_effective_client_ip :
    Parsers → Request → List TrustedCidr → Option Text → Option IpAddr
unfolding socket_peer_ip header_value_ci resolve_client_ip canonicalize_ip
get_effective_client_ip std request trusted real_ip_header = do
  socket_ip ← socket_peer_ip request
  let hval = header_value_ci request (real_ip_header_or real_ip_header)
  some (canonicalize_ip (resolve_client_ip std (canonicalize_ip socket_ip) trusted hval))

abbrev pub trusted_peer : List TrustedCidr → Option IpAddr → Bool
trusted_peer trusted none = false
trusted_peer trusted (some ip) = peer_in_trusted_list (canonicalize_ip ip) trusted

unfoldable pub peer_is_trusted_proxy : Request → List TrustedCidr → Bool
unfolding socket_peer_ip peer_in_trusted_list
peer_is_trusted_proxy request trusted =
    if is_empty trusted then false else trusted_peer trusted (socket_peer_ip request)
