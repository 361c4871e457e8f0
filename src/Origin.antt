-- ===== src/Origin.antt =====
-- src/shm.rs: `Origin`, with its encodings as a byte and as the words of LAPI and of the metrics.
pub mod Laws
use ngx_http_crowdsec_module.Base.{ℕ, ◌==◌, ◌||◌, if◌then◌else◌}
use ngx_http_crowdsec_module.Base.Text.{Text, codes, eq_ignore_ascii_case}

pub data Origin : Type 0 where
  crowdsec cscli capi console lists appsec unknown : Origin

unfoldable pub from_str : Text → Origin
unfolding eq_ignore_ascii_case
from_str s =
    if eq_ignore_ascii_case s (codes "crowdsec")
    then crowdsec
    else if eq_ignore_ascii_case s (codes "cscli") || eq_ignore_ascii_case s (codes "cscli-import")
    then cscli
    else if eq_ignore_ascii_case s (codes "capi")
    then capi
    else if eq_ignore_ascii_case s (codes "console")
    then console
    else if eq_ignore_ascii_case s (codes "lists")
    then lists
    else if eq_ignore_ascii_case s (codes "appsec")
    then appsec
    else unknown

unfoldable pub from_u8 : ℕ → Origin
from_u8 v =
    if v == 1
    then crowdsec
    else if v == 2
    then cscli
    else if v == 3
    then capi
    else if v == 4
    then console
    else if v == 5
    then lists
    else if v == 6
    then appsec
    else unknown

-- `self as u8`
unfoldable pub to_u8 : Origin → ℕ
to_u8 crowdsec = 1
to_u8 cscli = 2
to_u8 capi = 3
to_u8 console = 4
to_u8 lists = 5
to_u8 appsec = 6
to_u8 unknown = 255

unfoldable pub as_str : Origin → Text
as_str crowdsec = codes "crowdsec"
as_str cscli = codes "cscli"
as_str capi = codes "capi"
as_str console = codes "console"
as_str lists = codes "lists"
as_str appsec = codes "appsec"
as_str unknown = codes "unknown"

unfoldable pub metrics_label : Origin → Text
unfolding as_str
metrics_label capi = codes "CAPI"
metrics_label o = as_str o
