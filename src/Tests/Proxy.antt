-- ===== src/Tests/Proxy.antt =====
-- The theorems on the address of the client, at concrete headers and ranges.
use ngx_http_crowdsec_module.Base.Text.{codes, trim}
use ngx_http_crowdsec_module.Base.{
  ℕ, ◌≡◌, ◌↔◌, ◌*◌, ◌^◌, ◌≤◌, refl, true, none, some, [], ◌∷◌, ◌++◌, if◌then◌else◌, arith, bytes_eq,
}
use ngx_http_crowdsec_module.Net.{IpAddr, v4, v6, canonicalize_ip}
use ngx_http_crowdsec_module.RealIp.Trust.{parse-contains, GivesIps, Names, SharesPrefix, width}
use ngx_http_crowdsec_module.RealIp.Walk.{
  resolve_client_ip-Resolves, Resolves, resolve_client_ip_forged,
}
use ngx_http_crowdsec_module.RealIp.{
  Parsers, TrustedCidr, cidr_v4, parse, contains, peer_in_trusted_list, parse_forwarded_chain,
  resolve_client_ip,
}

-- Parsers that know two addresses and one number.
abbrev proxy : IpAddr
proxy = v4 (10 ∷ 0 ∷ 0 ∷ 1 ∷ [])

abbrev visitor : IpAddr
visitor = v4 (192 ∷ 0 ∷ 2 ∷ 9 ∷ [])

abbrev few : Parsers
few = record {
  parse_ip = λ s.
      if bytes_eq s (codes "10.0.0.1")
      then some proxy
      else if bytes_eq s (codes "192.0.2.9")
      then some visitor
      else none;
  parse_u32 = λ s. if bytes_eq s (codes "8") then some 8 else none;
}

abbrev private : TrustedCidr
private = cidr_v4 (10 * 2 ^ 24) (255 * 2 ^ 24)

few-GivesIps : GivesIps few
few-GivesIps s (v4 o) e = ground arith
few-GivesIps s (v6 o) e = absurd (ground arith)

private_text : parse few (codes " 10.0.0.1/8") ≡ some private
unfolding parse bytes_eq
private_text = refl

parse-contains_example :
    (ip : IpAddr) × (plen : ℕ) × Names few (trim (codes " 10.0.0.1/8")) ip plen
    × (plen ≤ width ip)
    × ((contains private visitor ≡ true) ↔ SharesPrefix plen ip (canonicalize_ip visitor))
parse-contains_example =
    parse-contains few (codes " 10.0.0.1/8") private visitor few-GivesIps private_text
      (ground arith)

resolve_client_ip-Resolves_example :
    Resolves few
      (private ∷ [])
      proxy
      (some (codes "192.0.2.9, 10.0.0.1"))
      (resolve_client_ip few proxy (private ∷ []) (some (codes "192.0.2.9, 10.0.0.1")))
resolve_client_ip-Resolves_example =
    resolve_client_ip-Resolves few proxy (private ∷ []) (some (codes "192.0.2.9, 10.0.0.1"))

resolve_client_ip_run :
    resolve_client_ip few proxy (private ∷ []) (some (codes "192.0.2.9, 10.0.0.1")) ≡ visitor
unfolding resolve_client_ip
resolve_client_ip_run = refl

resolve_client_ip_forged_example :
    resolve_client_ip few proxy
      (private ∷ [])
      (some (codes "127.0.0.1," ++ codes "192.0.2.9, 10.0.0.1"))
    ≡ resolve_client_ip few proxy (private ∷ []) (some (codes "192.0.2.9, 10.0.0.1"))
resolve_client_ip_forged_example =
    resolve_client_ip_forged few proxy (private ∷ []) (codes "127.0.0.1")
      (codes "192.0.2.9, 10.0.0.1") (unfold parse_forwarded_chain peer_in_trusted_list in refl)
