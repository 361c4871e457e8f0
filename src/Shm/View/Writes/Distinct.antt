-- ===== src/Shm/View/Writes/Distinct.antt =====
-- Keys that no entry has both of: two addresses, and an address and a range.
use ngx_http_crowdsec_module.Base.{ℕ, ◌≢◌, ap, List, take, bytes_eq_iff, arith}
use ngx_http_crowdsec_module.Net.{IpAddr, v4, v6}
use ngx_http_crowdsec_module.Shm.Entry.{matches_ip, matches_cidr}
use ngx_http_crowdsec_module.Shm.Key.{ip, cidr}
use ngx_http_crowdsec_module.Shm.View.Writes.{Differ}

pub ip-Differ : (a b : IpAddr) → a ≢ b → Differ (ip a) (ip b)
unfolding matches_ip
ip-Differ (v4 o) (v4 q) ne e m n =
    let f = bytes_eq_iff (take 4 e.addr) o in
    let g = bytes_eq_iff (take 4 e.addr) q in ne (ap v4 (ground (arith, f, g)))
ip-Differ (v4 o) (v6 q) ne e m n = ground arith
ip-Differ (v6 o) (v4 q) ne e m n = ground arith
ip-Differ (v6 o) (v6 q) ne e m n =
    let f = bytes_eq_iff e.addr o in
    let g = bytes_eq_iff e.addr q in ne (ap v6 (ground (arith, f, g)))

pub ip-cidr-Differ : (a : IpAddr) (f p : ℕ) (n : List ℕ) → Differ (ip a) (cidr f p n)
unfolding matches_ip matches_cidr
ip-cidr-Differ (v4 o) f p n e m h = ground arith
ip-cidr-Differ (v6 o) f p n e m h = ground arith

pub cidr-ip-Differ : (f p : ℕ) (n : List ℕ) (a : IpAddr) → Differ (cidr f p n) (ip a)
cidr-ip-Differ f p n a e m h = ip-cidr-Differ a f p n e h m
