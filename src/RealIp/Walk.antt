-- ===== src/RealIp/Walk.antt =====
-- Which address `resolve_client_ip` answers, and what a client can forge of it.
use ngx_http_crowdsec_module.Base.{
  ℕ, zero, suc, ◌≤◌, ◌<◌, ◌≡◌, refl, ap, sym, subst, ◌∙◌, inl, inr, true, false, not, ◌||◌, Option,
  none, some, List, [], ◌∷◌, ◌++◌, length, arith, Bool-cases, Option-cases, filter_map-append, any,
  all, get_or, take, if◌then◌else◌, ◌>>=◌, bytes_eq,
}
use ngx_http_crowdsec_module.Base.Text.{Text, split}
use ngx_http_crowdsec_module.Base.Split.{split-append}
use ngx_http_crowdsec_module.Net.{IpAddr, v4, v6, canonicalize_ip, mapped_prefix}
use ngx_http_crowdsec_module.RealIp.{
  Parsers, TrustedCidr, Request, peer_in_trusted_list, parse_forwarded_chain, parse_forwarded_token,
  walk, walk_chain, from_header, resolve_client_ip, get_effective_client_ip, peer_is_trusted_proxy,
  socket_peer_ip, is_empty,
}

abbrev pub prefer : Option IpAddr → Option IpAddr → Option IpAddr
prefer (some ip) other = some ip
prefer none other = other

-- The last address that is not trusted, found from the left.
abbrev pub last_untrusted : List TrustedCidr → List IpAddr → Option IpAddr
last_untrusted trusted [] = none
last_untrusted trusted (ip ∷ rest) =
    prefer (last_untrusted trusted rest) (if peer_in_trusted_list ip trusted then none else some ip)

abbrev or_else : Option IpAddr → IpAddr → IpAddr
or_else none d = d
or_else (some ip) d = ip

take_all : (xs : List IpAddr) → take (length xs) xs ≡ xs
take_all [] = refl
take_all (x ∷ xs) = ap (◌∷◌ x) (take_all xs)

-- The loop's answer from an index down is the last untrusted address below it.
take-suc :
    (xs : List IpAddr) (i : ℕ) (d : IpAddr)
    → i < length xs
    → take (suc i) xs ≡ take i xs ++ (get_or xs i d ∷ [])
take-suc [] i d h = absurd (omega arith)
take-suc (x ∷ xs) zero d h = refl
take-suc (x ∷ xs) (suc i) d h = ap (◌∷◌ x) (take-suc xs i d (omega arith))

last_untrusted-append :
    (trusted : List TrustedCidr) (xs ys : List IpAddr)
    → last_untrusted trusted (xs ++ ys)
      ≡ prefer (last_untrusted trusted ys) (last_untrusted trusted xs)
last_untrusted-append trusted [] ys = elim (Option-cases (last_untrusted trusted ys)) [
  | inl e ↦ rw e
  | inr (ip, e) ↦ rw e
]
last_untrusted-append trusted (x ∷ xs) ys =
    rw (last_untrusted-append trusted xs ys)
      (elim (Option-cases (last_untrusted trusted ys)) [ inl e ↦ rw e | inr (ip, e) ↦ rw e ])

walk-last_untrusted :
    (trusted : List TrustedCidr) (chain : List IpAddr) (first : IpAddr) (i : ℕ)
    → i ≤ length chain
    → walk trusted chain first i ≡ or_else (last_untrusted trusted (take i chain)) first
walk-last_untrusted trusted chain first zero h = refl
walk-last_untrusted trusted chain first (suc i) h =
    let ip = get_or chain i first in
    rw
      (
        take-suc chain i first (omega arith),
        last_untrusted-append trusted (take i chain) (ip ∷ []),
        walk-last_untrusted trusted chain first i (omega arith),
      )
      (elim (Bool-cases (peer_in_trusted_list ip trusted)) [ inl e ↦ rw e | inr e ↦ rw e ])

abbrev AllTrusted : List TrustedCidr → List IpAddr → Type 0
AllTrusted trusted ips = all (λ ip. peer_in_trusted_list ip trusted) ips ≡ true

-- The rules of the proxies, one to a constructor.
pub data Resolves (std : Parsers) (trusted : List TrustedCidr) (socket : IpAddr)
    : Option Text → IpAddr → Type 0 where
  untrusted_peer :
      (header : Option Text)
      → peer_in_trusted_list socket trusted ≡ false
      → Resolves std trusted socket header socket
  no_header : peer_in_trusted_list socket trusted ≡ true → Resolves std trusted socket none socket
  no_address :
      (raw : Text)
      → peer_in_trusted_list socket trusted ≡ true
      → parse_forwarded_chain std raw ≡ []
      → Resolves std trusted socket (some raw) socket
  client :
      (raw : Text) (left right : List IpAddr) (ip : IpAddr)
      → peer_in_trusted_list socket trusted ≡ true
      → parse_forwarded_chain std raw ≡ left ++ (ip ∷ right)
      → peer_in_trusted_list ip trusted ≡ false
      → AllTrusted trusted right
      → Resolves std trusted socket (some raw) ip
  all_trusted :
      (raw : Text) (first : IpAddr) (rest : List IpAddr)
      → peer_in_trusted_list socket trusted ≡ true
      → parse_forwarded_chain std raw ≡ first ∷ rest
      → AllTrusted trusted (first ∷ rest)
      → Resolves std trusted socket (some raw) first

parse_forwarded_chain-append :
    (std : Parsers) (s t : Text)
    → parse_forwarded_chain std (s ++ (44 ∷ t))
      ≡ parse_forwarded_chain std s ++ parse_forwarded_chain std t
unfolding parse_forwarded_chain
parse_forwarded_chain-append std s t =
    rw (split-append 44 s t)
      (filter_map-append (parse_forwarded_token std) (split 44 s) (split 44 t))

-- The walk over a whole chain.
walk_all :
    (trusted : List TrustedCidr) (x : IpAddr) (xs : List IpAddr)
    → walk trusted (x ∷ xs) x (length (x ∷ xs)) ≡ or_else (last_untrusted trusted (x ∷ xs)) x
walk_all trusted x xs =
    walk-last_untrusted trusted (x ∷ xs) x (length (x ∷ xs)) (omega arith)
    ∙ ap (λ l. or_else (last_untrusted trusted l) x) (take_all (x ∷ xs))

walk_chain-last_untrusted :
    (trusted : List TrustedCidr) (socket ip : IpAddr) (chain : List IpAddr)
    → last_untrusted trusted chain ≡ some ip
    → walk_chain trusted socket chain ≡ ip
walk_chain-last_untrusted trusted socket ip [] e = absurd (ground arith)
walk_chain-last_untrusted trusted socket ip (x ∷ xs) e = walk_all trusted x xs ∙ rw e refl

walk_chain_trusted :
    (trusted : List TrustedCidr) (socket x : IpAddr) (xs : List IpAddr)
    → last_untrusted trusted (x ∷ xs) ≡ none
    → walk_chain trusted socket (x ∷ xs) ≡ x
walk_chain_trusted trusted socket x xs e = walk_all trusted x xs ∙ rw e refl

last_untrusted-none :
    (trusted : List TrustedCidr) (ips : List IpAddr)
    → last_untrusted trusted ips ≡ none
    → AllTrusted trusted ips
last_untrusted-none trusted [] e = refl
last_untrusted-none trusted (x ∷ xs) e = elim (Option-cases (last_untrusted trusted xs)) [
  | inl n ↦ ground (arith, last_untrusted-none trusted xs n)
  | inr (ip, f) ↦ absurd (ground arith)
]

abbrev Splits : List TrustedCidr → List IpAddr → IpAddr → Type 0
Splits trusted ips ip =
    (left : List IpAddr) × (right : List IpAddr) × (ips ≡ left ++ (ip ∷ right))
    × (peer_in_trusted_list ip trusted ≡ false)
    × AllTrusted trusted right

last_untrusted-some :
    (trusted : List TrustedCidr) (ips : List IpAddr) (ip : IpAddr)
    → last_untrusted trusted ips ≡ some ip
    → Splits trusted ips ip
last_untrusted-some trusted [] ip e = absurd (ground arith)
last_untrusted-some trusted (x ∷ xs) ip e = elim (Option-cases (last_untrusted trusted xs)) [
  | inl n ↦
      let x_is : x ≡ ip = ground arith in
      ([], xs, ap (λ y. y ∷ xs) x_is, ground arith, last_untrusted-none trusted xs n)
  | inr (later, f) ↦
      let (left, right, split, bad, good) = last_untrusted-some trusted xs ip (f ∙ (rw f at e)) in
      (x ∷ left, right, ap (◌∷◌ x) split, bad, good)
]

chain-Resolves :
    (std : Parsers) (trusted : List TrustedCidr) (socket : IpAddr) (raw : Text)
    (chain : List IpAddr)
    → peer_in_trusted_list socket trusted ≡ true
    → parse_forwarded_chain std raw ≡ chain
    → Resolves std trusted socket (some raw) (walk_chain trusted socket chain)
chain-Resolves std trusted socket raw [] t e = no_address raw t e
chain-Resolves std trusted socket raw (x ∷ xs) t e =
    elim (Option-cases (last_untrusted trusted (x ∷ xs))) [
      | inl n ↦
          subst (Resolves std trusted socket (some raw))
            (sym (walk_chain_trusted trusted socket x xs n))
            (all_trusted raw x xs t e (last_untrusted-none trusted (x ∷ xs) n))
      | inr (ip, f) ↦
          let (left, right, split, bad, good) = last_untrusted-some trusted (x ∷ xs) ip f in
          subst (Resolves std trusted socket (some raw))
            (sym (walk_chain-last_untrusted trusted socket ip (x ∷ xs) f))
            (client raw left right ip t (e ∙ split) bad good)
    ]

from_header-Resolves :
    (std : Parsers) (trusted : List TrustedCidr) (socket : IpAddr) (header : Option Text)
    → peer_in_trusted_list socket trusted ≡ true
    → Resolves std trusted socket header (from_header std trusted socket header)
from_header-Resolves std trusted socket none t = no_header t
from_header-Resolves std trusted socket (some raw) t =
    chain-Resolves std trusted socket raw (parse_forwarded_chain std raw) t refl

-- The list is only tested for being empty to save the search.
guard-trusted :
    (socket : IpAddr) (trusted : List TrustedCidr)
    → (is_empty trusted || not (peer_in_trusted_list socket trusted))
      ≡ not (peer_in_trusted_list socket trusted)
unfolding peer_in_trusted_list
guard-trusted socket [] = refl
guard-trusted socket (t ∷ ts) = refl

-- An untrusted peer is the client, and so is a trusted one whose header is missing or names no
-- address; else the client is the last untrusted address of the header, everything behind it
-- trusted, or the first address of a header whose addresses are all trusted.
pub resolve_client_ip-Resolves :
    (std : Parsers) (socket : IpAddr) (trusted : List TrustedCidr) (header : Option Text)
    → Resolves std trusted socket header (resolve_client_ip std socket trusted header)
unfolding resolve_client_ip
resolve_client_ip-Resolves std socket trusted header =
    rw (guard-trusted socket trusted) (elim (Bool-cases (peer_in_trusted_list socket trusted)) [
      | inl t ↦ rw t (from_header-Resolves std trusted socket header t)
      | inr f ↦ rw f (untrusted_peer header f)
    ])

Untrusted-last_untrusted :
    (trusted : List TrustedCidr) (ips : List IpAddr)
    → any (λ ip. not (peer_in_trusted_list ip trusted)) ips ≡ true
    → (ip : IpAddr) × (last_untrusted trusted ips ≡ some ip)
Untrusted-last_untrusted trusted [] h = absurd (ground arith)
Untrusted-last_untrusted trusted (x ∷ xs) h = elim (Option-cases (last_untrusted trusted xs)) [
  | inr (ip, f) ↦ (ip, rw f refl)
  | inl n ↦
      let x_is : peer_in_trusted_list x trusted ≡ false =
        ground (arith, Untrusted-last_untrusted trusted xs) in
      (x, rw (n, x_is) refl)
]

-- What stands before a comma in front of a header, of which some address is not trusted, does not
-- change the address of the client.
pub resolve_client_ip_forged :
    (std : Parsers) (socket : IpAddr) (trusted : List TrustedCidr) (forged seen : Text)
    → any (λ ip. not (peer_in_trusted_list ip trusted)) (parse_forwarded_chain std seen) ≡ true
    → resolve_client_ip std socket trusted (some (forged ++ (44 ∷ seen)))
      ≡ resolve_client_ip std socket trusted (some seen)
unfolding resolve_client_ip
resolve_client_ip_forged std socket trusted forged seen h =
    let (ip, e) = Untrusted-last_untrusted trusted (parse_forwarded_chain std seen) h in
    let whole = parse_forwarded_chain std forged ++ parse_forwarded_chain std seen in
    let longer : last_untrusted trusted whole ≡ some ip =
      last_untrusted-append trusted (parse_forwarded_chain std forged)
        (parse_forwarded_chain std seen)
      ∙ rw e refl in
    rw
      (
        parse_forwarded_chain-append std forged seen,
        walk_chain-last_untrusted trusted socket ip whole longer,
        walk_chain-last_untrusted trusted socket ip (parse_forwarded_chain std seen) e,
      )
      refl

canonical-canonical : (ip : IpAddr) → canonicalize_ip (canonicalize_ip ip) ≡ canonicalize_ip ip
unfolding canonicalize_ip
canonical-canonical (v4 o) = refl
canonical-canonical (v6 o) = elim (Bool-cases (bytes_eq (take 12 o) mapped_prefix)) [
  | inl e ↦ rw e refl
  | inr e ↦ rw (e, e) refl
]

untrusted_peer-false :
    (ip : IpAddr) (trusted : List TrustedCidr)
    → (if is_empty trusted then false else peer_in_trusted_list ip trusted) ≡ false
    → peer_in_trusted_list ip trusted ≡ false
unfolding peer_in_trusted_list
untrusted_peer-false ip [] h = refl
untrusted_peer-false ip (t ∷ ts) h = h

-- Where the peer is not a trusted proxy the client is the peer itself, whatever the headers say.
pub get_effective_client_ip_untrusted :
    (std : Parsers) (request : Request) (trusted : List TrustedCidr) (name : Option Text)
    → peer_is_trusted_proxy request trusted ≡ false
    → get_effective_client_ip std request trusted name
      ≡ (socket_peer_ip request >>= λ ip. some (canonicalize_ip ip))
unfolding get_effective_client_ip peer_is_trusted_proxy
get_effective_client_ip_untrusted std request trusted name h =
    elim (Option-cases (socket_peer_ip request)) [
      | inl n ↦ rw n refl
      | inr (ip, e) ↦
          let peer = canonicalize_ip ip in
          let bad = untrusted_peer-false peer trusted (rw e at h) in
          rw (e, guard-trusted peer trusted, bad) (ap some (canonical-canonical ip))
    ]
