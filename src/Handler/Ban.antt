-- ===== src/Handler/Ban.antt =====
-- A ban is enforced, in one of the two phases that a request passes.
use ngx_http_crowdsec_module.Base.{
  ℕ, ◌≡◌, refl, ap, ◌∙◌, ◌⊎◌, inl, inr, Bool, true, false, not, ◌&&◌, ◌||◌, Option, none, some, [],
  if◌then◌else◌, arith, Bool-cases,
}
use ngx_http_crowdsec_module.DecisionType.{DecisionType}
use ngx_http_crowdsec_module.Net.{IpAddr}
use ngx_http_crowdsec_module.RealIp.{Parsers, Request}
use ngx_http_crowdsec_module.Shm.Lookup.{LookupResult, lookup_ip}
use ngx_http_crowdsec_module.Shm.State.{ShmData}
use ngx_http_crowdsec_module.Handler.{
  is_ban, resumed_or, Outcome, HandlerResult, declined, done, LocConfig, MainConfig, Outside,
  UnenforceableAction, let_through, refuse, is_static_asset_request, is_on, should_run_appsec,
  ban_applied, finish_block_ban, action_or_default, unenforceable, apply_unenforceable_action,
  redirects, handle_ban_decision, apply_lookup_remediation, bypasses, looked_up, client_of,
  handle_access, is_declined, inspected, precontent_for, handle_precontent,
}

-- nginx sends every response that a ban may need.
abbrev pub SendsAll : Outside → Type 0
SendsAll o =
    (o.sends_redirect ≡ true)
    × (o.sends_empty ≡ true)
    × (o.sends_refusal ≡ true)
    × (o.sends_ban_page ≡ true)

if-false : (b : Bool) (x y : Outcome) → b ≡ false → (if b then x else y) ≡ y
if-false b x y e = rw e refl

if-true : (b : Bool) (x y : Outcome) → b ≡ true → (if b then x else y) ≡ x
if-true b x y e = rw e refl

resumed_or-none : (r : Option HandlerResult) (x : Outcome) → r ≡ none → resumed_or r x ≡ x
resumed_or-none r x e = rw e refl

if_same : (b : Bool) → (if b then true else true) ≡ true
if_same true = refl
if_same false = refl

handle_ban_decision-done :
    (o : Outside) (loc : LocConfig) → SendsAll o → handle_ban_decision o loc ≡ (ban_applied, done)
unfolding handle_ban_decision finish_block_ban
handle_ban_decision-done o loc (redirected, emptied, refused, paged) =
    elim (Bool-cases (redirects loc && o.sends_redirect)) [
      | inl e ↦ rw e refl
      | inr e ↦ elim (Bool-cases (is_static_asset_request o loc)) [
        | inl f ↦ rw (e, f, refused) refl
        | inr f ↦ rw (e, f, paged, emptied, if_same loc.ban_template) refl
      ]
    ]

-- A lookup that found a ban.
abbrev pub FoundBan : LookupResult → Type 0
FoundBan lookup = (lookup.found ≡ true) × (lookup.decision_type ≡ DecisionType.ban)

apply_lookup_remediation-done :
    (o : Outside) (loc : LocConfig) (main : MainConfig) (lookup : LookupResult)
    → SendsAll o
    → FoundBan lookup
    → apply_lookup_remediation o loc main lookup ≡ (ban_applied, done)
unfolding apply_lookup_remediation
apply_lookup_remediation-done o loc main lookup sends (found, banned) =
    rw (found, banned) (handle_ban_decision-done o loc sends)

module _ (std : Parsers) (o : Outside) (loc : LocConfig) (main : MainConfig) (request : Request)
    (store : Option ShmData) (now : ℕ) where
  access-looked_up :
      (ip : IpAddr)
      → o.metrics_page ≡ none
      → loc.enabled ≡ some true
      → client_of std main request ≡ some ip
      → bypasses main ip ≡ false
      → (handle_access std o loc main request store now).1
        ≡ (looked_up o loc main (lookup_ip store ip now)).1
  unfolding handle_access
  access-looked_up ip page on client kept = rw (page, on, client, kept) refl

  precontent-inspected :
      (ip : IpAddr)
      → loc.enabled ≡ some true
      → o.is_subrequest ≡ false
      → o.resumed ≡ none
      → client_of std main request ≡ some ip
      → bypasses main ip ≡ false
      → handle_precontent std o loc main request store now
        ≡ inspected o loc main (lookup_ip store ip now)
  unfolding handle_precontent
  precontent-inspected ip on whole fresh client kept =
      let live : (not (is_on loc.enabled) || o.is_subrequest) ≡ false = rw (on, whole) refl in
      if-false (not (is_on loc.enabled) || o.is_subrequest) _ _ live
      ∙ resumed_or-none o.resumed _ fresh
      ∙ ap (precontent_for o loc main store now) client
      ∙ if-false (bypasses main ip) _ _ kept

  inspected-done :
      (lookup : LookupResult)
      → should_run_appsec loc lookup ≡ true
      → FoundBan lookup
      → o.inspects true ≡ declined
      → SendsAll o
      → inspected o loc main lookup ≡ (ban_applied, done)
  inspected-done lookup later (found, banned) inspects sends =
      let runs : (not (should_run_appsec loc lookup) && not o.internal_challenge) ≡ false =
        rw later refl in
      let passed : is_declined (o.inspects (lookup.found && is_ban lookup.decision_type)) ≡ true =
        rw (found, banned, inspects) refl in
      if-false (not (should_run_appsec loc lookup) && not o.internal_challenge) _ _ runs
      ∙ if-true (is_declined (o.inspects (lookup.found && is_ban lookup.decision_type))) _ _ passed
      ∙ apply_lookup_remediation-done o loc main lookup sends (found, banned)

  -- While the module is on, no body was read before, nginx sends its responses and AppSec lets the
  -- request pass, a request, not a subrequest nor one for the metrics page, from a client that the
  -- lookup finds banned and that no bypass exempts is answered in the access phase, or passes it
  -- to be answered in the precontent phase.
  pub handle_access-handle_precontent :
      (ip : IpAddr)
      → o.metrics_page ≡ none
      → loc.enabled ≡ some true
      → o.is_subrequest ≡ false
      → o.resumed ≡ none
      → client_of std main request ≡ some ip
      → bypasses main ip ≡ false
      → FoundBan (lookup_ip store ip now)
      → o.inspects true ≡ declined
      → SendsAll o
      → ((handle_access std o loc main request store now).1 ≡ done)
        ⊎ ((handle_access std o loc main request store now).1 ≡ declined)
          × ((handle_precontent std o loc main request store now).1 ≡ done)
  handle_access-handle_precontent ip page on whole fresh client kept (found, banned) inspects
        sends =
      let lookup = lookup_ip store ip now in
      let enforced = apply_lookup_remediation-done o loc main lookup sends (found, banned) in
      let access = access-looked_up ip page on client kept in
      let precontent = precontent-inspected ip on whole fresh client kept in
      elim (Bool-cases (should_run_appsec loc lookup)) [
        | inr at_once ↦ inl (access ∙ rw (at_once, enforced) refl)
        | inl later ↦
            let refused = precontent ∙ inspected-done lookup later (found, banned) inspects sends in
            inr (access ∙ rw later refl, ap (λ (x : Outcome). x.1) refused)
      ]

finish_block_ban-refuses : (o : Outside) → finish_block_ban o ≡ declined → ⊥
unfolding finish_block_ban
finish_block_ban-refuses o h = ground arith

done-refuses : done ≡ declined → ⊥
done-refuses h = ground arith

unenforceable-declined :
    (o : Outside) (a : UnenforceableAction) → unenforceable o a ≡ declined → a ≡ let_through
unenforceable-declined o let_through h = refl
unenforceable-declined o refuse h = absurd (finish_block_ban-refuses o h)

-- A ban lets a request through the phase as declined only where requests that cannot be answered
-- are to be allowed, the redirect is not asked for or fails, and the page or the empty answer
-- fails; then nothing is counted.
pub handle_ban_decision-declined :
    (o : Outside) (loc : LocConfig)
    → (handle_ban_decision o loc).1 ≡ declined
    → (action_or_default loc.unenforceable_action ≡ let_through)
      × ((if loc.ban_template then o.sends_ban_page else o.sends_empty) ≡ false)
      × ((redirects loc && o.sends_redirect) ≡ false)
      × ((handle_ban_decision o loc).0 ≡ [])
unfolding handle_ban_decision apply_unenforceable_action
handle_ban_decision-declined o loc h = elim (Bool-cases (redirects loc && o.sends_redirect)) [
  | inl e ↦ absurd (done-refuses (rw e at h))
  | inr e ↦ elim (Bool-cases (is_static_asset_request o loc)) [
    | inl f ↦ absurd (finish_block_ban-refuses o (rw (e, f) at h))
    | inr f ↦ elim (Bool-cases (if loc.ban_template then o.sends_ban_page else o.sends_empty)) [
      | inl g ↦ absurd (done-refuses (rw (e, f, g) at h))
      | inr g ↦ (
        unenforceable-declined o (action_or_default loc.unenforceable_action) (rw (e, f, g) at h),
        g,
        e,
        rw (e, f, g) refl,
      )
    ]
  ]
]
