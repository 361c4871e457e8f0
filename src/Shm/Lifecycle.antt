-- ===== src/Shm/Lifecycle.antt =====
-- src/shm.rs: `DecisionsSharedZone`, how the configuration asks nginx for `crowdsec_decisions`, and
-- the placeholder callback `decisions_shm_dummy_init`. `ngx_shared_memory_add` is a parameter: for a
-- size it gives the zone's address or fails.
pub mod Order
use ngx_http_crowdsec_module.Base.{
  ℕ, Bool, true, false, not, Option, none, some, is_none, ◌==◌, if◌then◌else◌,
}

pub data DecisionsSharedZone : Type 0 where
  unset : DecisionsSharedZone
  configured : ℕ → DecisionsSharedZone
  requested ready : ℕ → ℕ → DecisionsSharedZone

-- Which callback nginx calls for the zone.
pub data InitHandler : Type 0 where
  no_init dummy_init zone_init : InitHandler

-- The state of the configuration, the two fields of the `ngx_shm_zone_t` that the module sets, the
-- second telling whether `data` leads to that state or is null, and `SHM_ZONE`.
pub record Setup : Type 0 where
  pub state : DecisionsSharedZone
  pub init : InitHandler
  pub has_state : Bool
  pub shm_zone : Option ℕ

-- The state after the call, and whether it succeeds.
unfoldable pub configure : ℕ → DecisionsSharedZone → DecisionsSharedZone × Bool
configure size unset = (configured size, true)
configure size (configured existing) = (configured existing, existing == size)
configure size (requested zone existing) = (requested zone existing, existing == size)
configure size (ready zone existing) = (ready zone existing, existing == size)

-- The setup after the call, and the zone's address unless it fails.
unfoldable pub request : (ℕ → Option ℕ) → Setup → Setup × Option ℕ
request shared_memory_add c = elim c.state [
  | unset ↦ (c, none)
  | configured size ↦ elim (shared_memory_add size) [
    | none ↦ (c, none)
    | some zone ↦
        (record c { state = requested zone size; init = dummy_init; has_state = true }, some zone)
  ]
  | requested zone size ↦ (c, some zone)
  | ready zone size ↦ (c, some zone)
]

unfoldable pub finalize : ℕ → Setup → Setup
finalize zone c = record c { init = zone_init; has_state = false; shm_zone = some zone }

unfoldable pub decisions_zone_early_request : (ℕ → Option ℕ) → ℕ → Setup → Setup × Bool
decisions_zone_early_request shared_memory_add size c =
    let (state, ok) = configure size c.state in
    let c' = record c { state = state } in
    if not ok
    then (c', false)
    else let (after, zone) = request shared_memory_add c' in (after, not (is_none zone))

unfoldable pub init_decisions_zone : (ℕ → Option ℕ) → ℕ → Setup → Setup × Bool
init_decisions_zone shared_memory_add size c =
    let (state, ok) = configure size c.state in
    let c' = record c { state = state } in
    if not ok
    then (c', false)
    else let (after, zone) = request shared_memory_add c' in
      elim zone [ none ↦ (after, false) | some z ↦ (finalize z after, true) ]

-- `decisions_shm_dummy_init` for the zone at that address, and whether it is `NGX_OK`.
unfoldable pub decisions_shm_dummy_init : ℕ → Setup → Setup × Bool
decisions_shm_dummy_init zone c = if not c.has_state then (c, false) else (elim c.state [
  | requested _ size ↦ (record c { state = ready zone size; shm_zone = some zone }, true)
  | ready _ size ↦ (record c { state = ready zone size; shm_zone = some zone }, true)
  | _ ↦ (c, false)
])
