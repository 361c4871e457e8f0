-- ===== src/AppSec/Shut.antt =====
-- Where failures are denied and bans enforced, a request waits for its inspection, or it is refused.
use ngx_http_crowdsec_module.AppSec.{
  AppSecFailureAction, deny, AppSecLoc, AppSecConfig, AppSecBodyContext, Client,
}
use ngx_http_crowdsec_module.AppSec.Inspect.{
  Machine, Step, post_call, inspect_with_body, inspect_or_drop_unforwardable_body, on_extracted,
  initiate_appsec_body_read, inspect_request_body, fresh_inspection, inspect, resume_body_read,
  holds_context, is_special, exceeds,
}
use ngx_http_crowdsec_module.AppSec.Found.{
  Inspected, appsec_context, is_challenge_uri, with_config, forbidden_or,
}
use ngx_http_crowdsec_module.AppSec.Response.{Around, is_block, fail_closed}
use ngx_http_crowdsec_module.AppSec.Verdicts.{IsStrict, page-is_block}
use ngx_http_crowdsec_module.Base.{
  ℕ, ◌≡◌, refl, ◌⊎◌, inl, inr, Bool, true, false, not, ◌&&◌, Option, none, some, List,
  if◌then◌else◌, arith, Bool-cases,
}
use ngx_http_crowdsec_module.Base.Text.{Text}
use ngx_http_crowdsec_module.Handler.{HandlerResult, Outcome, is_on}
use ngx_http_crowdsec_module.Net.{IpAddr}
use ngx_http_crowdsec_module.RequestBody.{
  BodyRequest, BodyExtractResult, body, unreadable, too_large, request_body_buffered,
  has_request_body, finish_phase_body_read,
}

-- The request does not go on: a response is sent, it is refused, or it waits.
abbrev pub holds_back : HandlerResult → Bool
holds_back HandlerResult.declined = false
holds_back HandlerResult.error = false
holds_back _ = true

block-holds_back : (r : HandlerResult) → is_block r ≡ true → holds_back r ≡ true
block-holds_back HandlerResult.done h = refl
block-holds_back HandlerResult.forbidden h = refl
block-holds_back HandlerResult.body_read_pending h = refl
block-holds_back HandlerResult.declined h = absurd (ground arith)
block-holds_back HandlerResult.error h = absurd (ground arith)

abbrev Shuts : Step → Type 0
Shuts s = holds_back s.outcome.1 ≡ true

if-Shuts : (b : Bool) (s t : Step) → Shuts s → Shuts t → Shuts (if b then s else t)
if-Shuts true s t hs ht = hs
if-Shuts false s t hs ht = ht

module _ (a : Around) (l : AppSecLoc) (s : IsStrict a l) where
  denied-holds_back : (ip : Option IpAddr) → holds_back (fail_closed a l ip deny).1 ≡ true
  unfolding fail_closed
  denied-holds_back none = refl
  denied-holds_back (some ip) = block-holds_back _ (page-is_block a l s)

  module _ (m : Machine) (r : Client) (i : Inspected) (d : i.failure_action ≡ deny) where
    failed-holds_back :
        (ip : Option IpAddr) → holds_back (fail_closed a l ip i.failure_action).1 ≡ true
    failed-holds_back ip = rw d (denied-holds_back ip)

    post_call-Shuts :
        (bytes : Option (List ℕ)) (slot : Option AppSecBodyContext)
        → Shuts (post_call m a l r i bytes slot)
    post_call-Shuts bytes slot = if-Shuts m.takes _ _ refl (failed-holds_back (some i.ip))

    inspect_with_body-Shuts :
        (bytes : Option (List ℕ)) (shm_ban : Bool) (slot : Option AppSecBodyContext)
        → Shuts (inspect_with_body m a l r i bytes shm_ban slot)
    unfolding inspect_with_body
    inspect_with_body-Shuts bytes shm_ban slot =
        if-Shuts (holds_context slot) _ _ (post_call-Shuts bytes slot)
          (if-Shuts (not m.allocates) _ _ (failed-holds_back (some i.ip)) (post_call-Shuts bytes _))

    drop-Shuts :
        (shm_ban : Bool) (slot : Option AppSecBodyContext)
        → Shuts (inspect_or_drop_unforwardable_body m a l r i shm_ban slot)
    unfolding inspect_or_drop_unforwardable_body
    drop-Shuts shm_ban slot =
        if-Shuts (i.config.drop_unreadable_body) _ _ (denied-holds_back (some i.ip))
          (inspect_with_body-Shuts none shm_ban slot)

    extracted-Shuts :
        (shm_ban : Bool) (slot : Option AppSecBodyContext) (b : BodyExtractResult)
        → Shuts (on_extracted m a l r i shm_ban slot b)
    extracted-Shuts shm_ban slot (body bytes) = inspect_with_body-Shuts (some bytes) shm_ban slot
    extracted-Shuts shm_ban slot unreadable = drop-Shuts shm_ban slot
    extracted-Shuts shm_ban slot too_large = drop-Shuts shm_ban slot

    initiate-Shuts :
        (shm_ban : Bool) (slot : Option AppSecBodyContext)
        → Shuts (initiate_appsec_body_read m a l i shm_ban slot)
    unfolding initiate_appsec_body_read
    initiate-Shuts shm_ban slot = if-Shuts (not m.allocates) _ _ (failed-holds_back (some i.ip)) (
        if-Shuts (finish_phase_body_read m.reading) _ _ refl
          (if-Shuts (is_special m.reading) _ _ refl (failed-holds_back (some i.ip))))

    request_body-Shuts :
        (b : BodyRequest) (shm_ban : Bool) (slot : Option AppSecBodyContext)
        → Shuts (inspect_request_body m a l r b i shm_ban slot)
    unfolding inspect_request_body
    request_body-Shuts b shm_ban slot =
        if-Shuts (request_body_buffered b) _ _ (extracted-Shuts shm_ban slot _) (
          if-Shuts (exceeds i.config.max_body_size b.content_length_n) _ _ (drop-Shuts shm_ban slot)
            (initiate-Shuts shm_ban slot))

    fresh-Shuts :
        (b : BodyRequest) (is_subrequest shm_ban : Bool) (slot : Option AppSecBodyContext)
        → Shuts (fresh_inspection m a l r b is_subrequest shm_ban slot (inl i))
    fresh-Shuts b is_subrequest shm_ban slot =
        if-Shuts (not is_subrequest && has_request_body b) _ _ (request_body-Shuts b shm_ban slot)
          (inspect_with_body-Shuts none shm_ban slot)

  -- The context of an inspection denies failures, and what comes in its place holds back.
  abbrev Guarded : Inspected ⊎ Outcome → Type 0
  Guarded (inl i) = i.failure_action ≡ deny
  Guarded (inr outcome) = holds_back outcome.1 ≡ true

  forbidden-holds_back :
      (internal : Bool) (other : Outcome)
      → holds_back other.1 ≡ true
      → holds_back (forbidden_or internal other).1 ≡ true
  forbidden-holds_back true other h = refl
  forbidden-holds_back false other h = h

  with_config-Guarded :
      (internal : Bool) (fa : AppSecFailureAction) (config : Option AppSecConfig)
      (ip : Option IpAddr)
      → fa ≡ deny
      → Guarded (with_config a l internal fa config ip)
  with_config-Guarded internal fa config none e =
      forbidden-holds_back internal _ (rw e (denied-holds_back none))
  with_config-Guarded internal fa none (some ip) e =
      forbidden-holds_back internal _ (rw e (denied-holds_back (some ip)))
  with_config-Guarded internal fa (some config) (some ip) e = e

  appsec_context-Guarded :
      (config : Option AppSecConfig) (ip : Option IpAddr) (uri : Option Text)
      → is_on l.loc.appsec_enabled ≡ true
      → l.appsec_failure_action ≡ some deny
      → Guarded (appsec_context a l config ip uri)
  unfolding appsec_context
  appsec_context-Guarded config ip uri on d =
      rw on (elim (Bool-cases (is_challenge_uri uri && not (is_on l.bot_challenge_enabled))) [
        | inl y ↦ rw y refl
        | inr n ↦ rw n (
            with_config-Guarded (is_challenge_uri uri) _ config ip
              (elim (Bool-cases (is_challenge_uri uri)) [
                | inl c ↦ rw c refl
                | inr c ↦ rw (c, d) refl
              ]))
      ])

  -- Where AppSec is on, failures are denied and bans enforced, no request passes its first
  -- inspection: whatever its body, the configuration and the state of the machine, it waits for a
  -- body or for the answer, it is refused, or a response was sent.
  pub inspect-holds_back :
      (m : Machine) (config : Option AppSecConfig) (ip : Option IpAddr) (r : Client)
      (b : BodyRequest) (is_subrequest shm_ban : Bool) (slot : Option AppSecBodyContext)
      → is_on l.loc.appsec_enabled ≡ true
      → l.appsec_failure_action ≡ some deny
      → resume_body_read slot ≡ none
      → holds_back (inspect m a l config ip r b is_subrequest shm_ban slot).outcome.1 ≡ true
  unfolding inspect
  inspect-holds_back m config ip r b is_subrequest shm_ban slot on d n =
      rw (n, inspect)
        (go (appsec_context a l config ip r.uri) (appsec_context-Guarded config ip r.uri on d))
    where
      go :
          (found : Inspected ⊎ Outcome)
          → Guarded found
          → Shuts (fresh_inspection m a l r b is_subrequest shm_ban slot found)
      go (inl i) g = fresh-Shuts m r i g b is_subrequest shm_ban slot
      go (inr outcome) g = g
