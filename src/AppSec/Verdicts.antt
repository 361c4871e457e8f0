-- ===== src/AppSec/Verdicts.antt =====
-- Which requests AppSec lets through.
use ngx_http_crowdsec_module.AppSec.{
  AppSecFailureAction, passthrough, deny, AppSecLoc, AppSecBodyContext,
}
use ngx_http_crowdsec_module.AppSec.Response.{
  Around, Envelope, AppSecResponse, is_block, apply_appsec_ban_page, apply_shm_or_appsec_ban,
  fail_closed, on_envelope, on_403, apply_appsec_response, finalize_async_result,
}
use ngx_http_crowdsec_module.AppSec.Inspect.{holds_context}
use ngx_http_crowdsec_module.AppSec.Callbacks.{verdict_of, complete, finish}
use ngx_http_crowdsec_module.Base.{
  ◌≡◌, ◌≢◌, refl, sym, ◌∙◌, ◌⊎◌, inl, inr, Bool, true, false, false≢true, Option, none, some, ◌==◌,
  ==_iff, bytes_eq, bytes_eq_iff, arith, Bool-cases,
}
use ngx_http_crowdsec_module.Base.Text.{codes}
use ngx_http_crowdsec_module.Handler.{HandlerResult, refuse, handle_ban_decision, is_on}
use ngx_http_crowdsec_module.Net.{IpAddr}
use ngx_http_crowdsec_module.RequestBody.{finalize_allow}

-- Bans are enforced: with the status 403, also where a page cannot be sent.
pub record IsStrict (a : Around) (l : AppSecLoc) : Type 0 where
  pub refuses : l.loc.unenforceable_action ≡ some refuse
  pub status : a.o.status_is_403 ≡ true

-- The server has let the request through: by the status 200, or by an answer that says so.
abbrev pub Allowed : Option AppSecResponse → Type 0
Allowed response =
    (r : AppSecResponse) × (response ≡ some r)
    × ((r.status ≡ 200)
        ⊎ ((r.status ≡ 403) × (e : Envelope) × (r.envelope ≡ some e) × (e.action ≡ codes "allow")))

-- The server has given no answer that the protocol knows.
abbrev pub Unanswered : Option AppSecResponse → Type 0
Unanswered response =
    (response ≡ none)
    ⊎ ((r : AppSecResponse) × (response ≡ some r) × (r.status ≢ 200) × (r.status ≢ 403))

module _ (a : Around) (l : AppSecLoc) (s : IsStrict a l) where
  ban-is_block : is_block (handle_ban_decision a.o l.loc).1 ≡ true
  unfolding handle_ban_decision
  ban-is_block = ground (arith, s.refuses, s.status)

  pub page-is_block : is_block (apply_appsec_ban_page a l).1 ≡ true
  unfolding apply_appsec_ban_page
  page-is_block = ban-is_block

  shm-is_block : (ip : IpAddr) → is_block (apply_shm_or_appsec_ban a l ip).1 ≡ true
  unfolding apply_shm_or_appsec_ban
  shm-is_block ip = ground (arith, ban-is_block, page-is_block)

  denied-is_block : (ip : IpAddr) → is_block (fail_closed a l (some ip) deny).1 ≡ true
  unfolding fail_closed
  denied-is_block ip = page-is_block

  envelope-is_block :
      (ip : IpAddr) (bot_challenge shm_ban : Bool) (e : Envelope)
      → bytes_eq e.action (codes "allow") ≡ false
      → is_block (on_envelope a l ip bot_challenge shm_ban e).0.1 ≡ true
  envelope-is_block ip bot_challenge shm_ban e n = ground (arith, shm-is_block ip)

  open_403 :
      (ip : IpAddr) (bot_challenge shm_ban : Bool) (r : AppSecResponse)
      → r.status ≡ 403
      → is_block (on_403 a l ip bot_challenge shm_ban r.envelope).0.1 ≡ false
      → Allowed (some r)
  open_403 ip bot_challenge shm_ban r st h = go r.envelope refl h
    where
      go :
          (o : Option Envelope)
          → r.envelope ≡ o
          → is_block (on_403 a l ip bot_challenge shm_ban o).0.1 ≡ false
          → Allowed (some r)
      go none held h = absurd (false≢true (sym h ∙ page-is_block))
      go (some e) held h = elim (Bool-cases (bytes_eq e.action (codes "allow"))) [
        | inl y ↦ (r, refl, inr (st, e, held, (bytes_eq_iff _ _).0 y))
        | inr n ↦ absurd (false≢true (sym h ∙ envelope-is_block ip bot_challenge shm_ban e n))
      ]

  open_response :
      (ip : IpAddr) (fa : AppSecFailureAction) (bot_challenge shm_ban : Bool) (r : AppSecResponse)
      → is_block (apply_appsec_response a l ip r fa bot_challenge shm_ban).0.1 ≡ false
      → Allowed (some r) ⊎ ((fa ≡ passthrough) × Unanswered (some r))
  unfolding apply_appsec_response
  open_response ip fa bot_challenge shm_ban r h = elim (Bool-cases (r.status == 200)) [
    | inl y ↦ inl (r, refl, inl ((==_iff _ _).0 y))
    | inr n ↦ elim (Bool-cases (r.status == 403)) [
      | inl f ↦ inl (open_403 ip bot_challenge shm_ban r ((==_iff _ _).0 f) (rw (n, f) at h))
      | inr g ↦ inr (
        only_passthrough ip fa (rw (n, g) at h),
        inr (
          r,
          refl,
          λ e. false≢true (sym n ∙ (==_iff _ _).1 e),
          λ e. false≢true (sym g ∙ (==_iff _ _).1 e),
        ),
      )
    ]
  ]
    where
      only_passthrough :
          (ip : IpAddr) (fa : AppSecFailureAction)
          → is_block (fail_closed a l (some ip) fa).1 ≡ false
          → fa ≡ passthrough
      only_passthrough ip passthrough h = refl
      only_passthrough ip deny h = absurd (false≢true (sym h ∙ denied-is_block ip))

  none_open :
      (ip : IpAddr) (fa : AppSecFailureAction) (bot_challenge : Bool)
      → is_block (fail_closed a l (some ip) fa).1 ≡ false
      → fa ≡ passthrough
  none_open ip passthrough b h = refl
  none_open ip deny b h = absurd (false≢true (sym h ∙ denied-is_block ip))

  open_verdict :
      (ip : IpAddr) (fa : AppSecFailureAction) (shm_ban : Bool) (response : Option AppSecResponse)
      → is_block (verdict_of a l ip fa shm_ban response).0.1 ≡ false
      → Allowed response ⊎ ((fa ≡ passthrough) × Unanswered response)
  open_verdict ip fa shm_ban none h = inr (none_open ip fa true h, inl refl)
  open_verdict ip fa shm_ban (some r) h =
      open_response ip fa (is_on l.bot_challenge_enabled) shm_ban r h

  allow-open : (r : HandlerResult) → finalize_async_result r ≡ finalize_allow → is_block r ≡ false
  unfolding finalize_async_result
  allow-open HandlerResult.declined h = refl
  allow-open HandlerResult.error h = refl
  allow-open HandlerResult.forbidden h = absurd (ground arith)
  allow-open HandlerResult.done h = absurd (ground arith)
  allow-open HandlerResult.body_read_pending h = refl

  finish-allow :
      (r : HandlerResult) (slot : Option AppSecBodyContext)
      → (finish r slot).1 ≡ finalize_allow
      → is_block r ≡ false
  unfolding finish
  finish-allow HandlerResult.declined slot h = refl
  finish-allow HandlerResult.error slot h = refl
  finish-allow HandlerResult.forbidden slot h = absurd (ground arith)
  finish-allow HandlerResult.done slot h = absurd (ground arith)
  finish-allow HandlerResult.body_read_pending slot h = refl

  -- Where bans are enforced, a request whose inspection is complete goes on only if the server has
  -- let it through, or if failures are passed through and the server has given no answer that the
  -- protocol knows or the context of the inspection is lost.
  pub complete-Allowed :
      (ip : IpAddr) (fa : AppSecFailureAction) (shm_ban : Bool) (response : Option AppSecResponse)
      (slot : Option AppSecBodyContext)
      → (complete a l ip fa shm_ban response slot).action ≡ finalize_allow
      → Allowed response
        ⊎ ((fa ≡ passthrough) × ((holds_context slot ≡ false) ⊎ Unanswered response))
  complete-Allowed ip fa shm_ban response slot h = elim (Bool-cases (holds_context slot)) [
    | inr n ↦ inr (none_open ip fa true (allow-open _ (lost n)), inl n)
    | inl y ↦ elim (open_verdict ip fa shm_ban response (finish-allow _ slot (kept y))) [
      | inl ok ↦ inl ok
      | inr (p, u) ↦ inr (p, inr u)
    ]
  ]
    where
      lost :
          holds_context slot ≡ false
          → finalize_async_result (fail_closed a l (some ip) fa).1 ≡ finalize_allow
      lost n = unfold complete in (rw n at h)

      kept :
          holds_context slot ≡ true
          → (finish (verdict_of a l ip fa shm_ban response).0.1 slot).1 ≡ finalize_allow
      kept y = unfold complete in (rw y at h)
