-- ===== src/Shm/Lifecycle/Order.antt =====
-- The orders in which the configuration and nginx may call.
use ngx_http_crowdsec_module.Base.{
  ℕ, ◌≡◌, Bool, true, false, Option, none, some, ◌==◌, if◌then◌else◌, arith,
}
use ngx_http_crowdsec_module.Shm.Lifecycle.{
  Setup, unset, no_init, configure, request, finalize, decisions_zone_early_request,
  init_decisions_zone, decisions_shm_dummy_init,
}

-- Before any directive is parsed.
abbrev pub at_first : Setup
at_first = record { state = unset; init = no_init; has_state = false; shm_zone = none }

-- nginx may call the placeholder before the end of the configuration.
abbrev pub perhaps_init : Bool → ℕ → Setup → Setup
perhaps_init early zone c = if early then (decisions_shm_dummy_init zone c).0 else c

-- The setup when postconfiguration begins, where a directive asked for a zone of that size.
abbrev pub asked : (ℕ → Option ℕ) → ℕ → Bool → ℕ → Setup
asked shared_memory_add size early zone =
    perhaps_init early zone (decisions_zone_early_request shared_memory_add size at_first).0

-- If nginx gives a zone for the size that the first directive asks for, then, whether or not nginx
-- calls the placeholder in between, the end of the configuration installs the real callback for
-- that size, and for another size fails and changes nothing.
pub init_decisions_zone_after_request :
    (shared_memory_add : ℕ → Option ℕ) (zone size other : ℕ) (early : Bool)
    → shared_memory_add size ≡ some zone
    → init_decisions_zone shared_memory_add other (asked shared_memory_add size early zone) ≡ (
        if size == other
        then (finalize zone (asked shared_memory_add size early zone), true)
        else (asked shared_memory_add size early zone, false))
unfolding init_decisions_zone decisions_zone_early_request decisions_shm_dummy_init configure
    request
init_decisions_zone_after_request shared_memory_add zone size other early given = ground arith
