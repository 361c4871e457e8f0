-- ===== src/Captcha/Body/Context.antt =====
-- The context of a posted captcha: what goes in comes out, and what a callback decides is what the
-- phase returns when nginx runs it again.
use ngx_http_crowdsec_module.Base.{
  ℕ, ◌-◌, ◌≤◌, ◌≡◌, refl, some, [], ◌++◌, min, length, replicate, take-take-append, length-append,
  arith,
}
use ngx_http_crowdsec_module.Base.Text.{Text, codes, utf8}
use ngx_http_crowdsec_module.Captcha.Body.{
  CaptchaConfig, Conversions, CaptchaPostContext, store, from_config, bounded_str, client_ip_str,
  to_config, finish, resume_body_read,
}
use ngx_http_crowdsec_module.Handler.{HandlerResult}
use ngx_http_crowdsec_module.Net.{IpAddr}
use ngx_http_crowdsec_module.RequestBody.{captcha_post_ctx_magic}
use ngx_http_crowdsec_module.Usage.Keys.{take-all}

-- A text that an array of a size holds, and that the decoder gives back.
abbrev pub FitsIn : Conversions → ℕ → Text → Type 0
FitsIn std size text = (length (utf8 text) ≤ size) × (std.from_utf8 (utf8 text) ≡ some text)

bounded_str-store :
    (std : Conversions) (size : ℕ) (text fallback : Text)
    → FitsIn std size text
    → bounded_str std (store size text) fallback ≡ text
unfolding bounded_str store
bounded_str-store std size text fallback (h, back) =
    let e : min (length (utf8 text)) size ≡ length (utf8 text) = omega arith in
    let zeros = replicate (size - length (utf8 text)) 0 in
    let m : min (length (utf8 text)) (length (utf8 text ++ zeros)) ≡ length (utf8 text) =
      omega (arith, length-append (utf8 text) zeros) in
    rw
      (
        e,
        take-all (length (utf8 text)) (utf8 text) (omega arith),
        m,
        take-take-append (utf8 text) zeros (length (utf8 text)) refl,
        back,
      )
      refl

-- What the directives let through: keys of at most 256 bytes, a cookie name of at most 64.
pub record Storable (std : Conversions) (config : CaptchaConfig) (ip : IpAddr) : Type 0 where
  pub address : FitsIn std 64 (std.ip_to_string ip)
  pub secret : FitsIn std 256 config.secret_key
  pub site : FitsIn std 256 config.site_key
  pub cookie : FitsIn std 64 config.cookie_name

module _ (std : Conversions) (config : CaptchaConfig) (ip : IpAddr)
    (s : Storable std config ip) where
  -- The callbacks find the configuration that the request was posted under, where the bytes of its
  -- keys, of its cookie name and of the address fit into the context and are decoded to what they
  -- encode.
  pub to_config-from_config : to_config std (from_config std config ip) ≡ config
  unfolding to_config from_config
  to_config-from_config =
      rw
        (
          bounded_str-store std 256 config.site_key [] s.site,
          bounded_str-store std 256 config.secret_key [] s.secret,
          bounded_str-store std 64 config.cookie_name (codes "crowdsec_captcha") s.cookie,
        )
        refl

  pub client_ip_str-from_config :
      client_ip_str std (from_config std config ip) ≡ std.ip_to_string ip
  unfolding from_config
  client_ip_str-from_config =
      bounded_str-store std 64 (std.ip_to_string ip) (codes "unknown") s.address

-- A result that sends the request on or refuses it.
pub data IsVerdict : HandlerResult → Type 0 where
  allows : IsVerdict HandlerResult.declined
  refuses : IsVerdict HandlerResult.forbidden
  fails : IsVerdict HandlerResult.error

-- The phase that nginx runs again returns what a callback decided, and goes on waiting where the
-- callback has sent a response itself.
pub resume_body_read-finish :
    (ctx : CaptchaPostContext)
    → ctx.magic ≡ captcha_post_ctx_magic
    → ctx.stored_result ≡ 0
    → ((r : HandlerResult) → IsVerdict r → resume_body_read (some (finish r ctx).0) ≡ some r)
      × (resume_body_read (some (finish HandlerResult.done ctx).0)
          ≡ some HandlerResult.body_read_pending)
unfolding resume_body_read finish
resume_body_read-finish ctx m z = (verdict, waits)
  where
    verdict : (r : HandlerResult) → IsVerdict r → resume_body_read (some (finish r ctx).0) ≡ some r
    verdict r allows = rw m refl
    verdict r refuses = rw m refl
    verdict r fails = rw m refl

    waits :
        resume_body_read (some (finish HandlerResult.done ctx).0)
        ≡ some HandlerResult.body_read_pending
    waits = rw (m, z) refl
