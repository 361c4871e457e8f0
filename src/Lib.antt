-- ===== src/Lib.antt =====
-- The CrowdSec bouncer for nginx: the store of decisions in shared memory, the client that fills it
-- from the CrowdSec LAPI, and the path of a request from the address of its client to the answer.
--
-- Parts of the program. One worker, the poller, gets decisions from LAPI (src/stream.rs) and writes
-- them to the zone `crowdsec_decisions` with `add_decision`, `add_cidr_decision`,
-- `remove_decision_type`, `remove_cidr_decision_type` and `clear_all` (src/shm.rs). An entry holds
-- a ban and a captcha, each with its own deadline (src/expiry.rs). A request (src/handler.rs) gets
-- the address of its client, behind proxies from a header (src/realip.rs), looks it up with
-- `lookup_ip`, and is banned, sent a captcha (src/captcha/) with a page (src/template.rs), handed
-- to the AppSec server (src/appsec.rs) with its body (src/request_body.rs), or let through. The
-- workers count what they do in a second zone, `MetricsShm`, and in a third, whose counters the
-- poller reports to the LAPI (src/usage_metrics.rs).
--
-- Which file models which part:
--   Expiry, Expiry/Remedy    src/expiry.rs, and the abstract view of one remediation
--   DecisionType, Origin     the enums of src/shm.rs, and `FallbackRemediation` of src/config.rs
--   Net                      `apply_ipv4_mask`, `apply_ipv6_mask`, `cidr_params_valid` of src/shm.rs
--                            and `canonicalize_ip` of src/realip.rs
--   Net/Cidr                 `parse_cidr` of src/shm.rs
--   RealIp                   the rest of src/realip.rs: trusted ranges, headers, `resolve_client_ip`
--   Shm/Entry, Shm/Scenario  `ShmHashEntry` and `ShmScenario`
--   Shm/State                `ShmData` with its two tables, the prefix marks and the scenario ids
--   Shm/Hash                 `hash_ip` and `hash_cidr`
--   Shm/Probe, Shm/Find      the probing loops: `find_slot_ip`, `find_slot_cidr`, `find_vacant_slot`,
--                            `evict_clock`
--   Shm/Lookup               `lookup_ip` with `lookup_cidr_v4` and `lookup_cidr_v6`
--   Shm/Update               the five writers
--   Shm/Counters             `get_active_count`, `get_count`, `get_eviction_count` and
--                            `count_active_decisions_by_origin`
--   Shm/Zone                 `decisions_shm_zone_init`, `try_become_poller`, `release_poller`
--   Shm/Lifecycle            `DecisionsSharedZone` and the callback that stands in for the real one
--   Shm/Metrics              the counters and `metrics_prometheus_snapshot`
--   Shm/Key, Shm/Table, Shm/Valid    the keys of the table and the invariant of the zone
--   Shm/View                 the zone as a map from keys to remediations, and the operations on it
--   Shm/View/Slots           what a lookup answers, by the slots of the table alone
--   Shm/Trace                runs of the writers, of the poller election and of reloads
--   Stream/Duration          `parse_duration` of src/stream.rs
--   Stream                   src/types.rs, `apply_to_shm` and `poll` of src/stream.rs
--   Stream/Loop              `poll_with_retry` and `run_polling_loop`
--   Captcha/Config           the enums of src/captcha/config.rs
--   Captcha/Redirect         src/captcha/redirect.rs
--   Captcha/Cookie           src/captcha/cookie.rs
--   Captcha/Jwt              src/captcha/jwt.rs
--   Captcha/Form             src/captcha/verifier.rs: the posted form and the provider's answer
--   Captcha/Session          `captcha_session_valid` of src/captcha/handler.rs
--   Captcha/Body             src/captcha/body.rs: the context of a posted captcha
--   Captcha/Body/Pages       its responses, and the page of src/captcha/handler.rs
--   Captcha/Body/Flow        its callbacks
--   Captcha/Body/Redirects   what the redirect of a success carries
--   RequestBody              src/request_body.rs
--   AppSec                   the context and the call of src/appsec.rs, with the headers that pass
--   AppSec/Response          what follows an answer of the AppSec server
--   AppSec/Found             `appsec_context`
--   AppSec/Inspect           `inspect`
--   AppSec/Callbacks         the callback that has the body, and the completion of a call
--   Usage                    the keys, the table and the counting of src/usage_metrics.rs
--   Usage/Items              what a push reports and takes off
--   Usage/Push               the payload, `push_to_lapi` and the set-up of the zone
--   Usage/Counts             what the table counts for a key, and its invariant
--   Template                 src/template.rs
--   Handler                  the two phases of src/handler.rs, and the test for static assets of
--                            src/config.rs
--   Tests                    the theorems at concrete inputs
--
-- State and operations. The zone is the record `ShmData`; the entries and the scenario names that
-- its offsets lead to are lists in it. An operation on it is a function from the zone, the readings
-- of the clock and its arguments to the new zone. Those named `..._locked` are what runs under the
-- write lock, so that one call is one step; the functions without that ending add the case of a
-- zone that is not there. The client of the LAPI is a function from the store, the counters and
-- what it meets: the answer to each call of the agent, the readings of the clock, and the flag that
-- stops it behind each pause. A handler is a function from the configuration, the request, the
-- store and the outcome of each call of nginx to what it counts and its result. What a callback
-- does to its request is its action: the phases go on, the request is finalized with a status, or
-- it is left alone; between the phase and the callback the request's slot holds a context. Text is
-- a list of Unicode code points. Words are natural numbers with their wrap-around written out, and
-- an `i64` is its 64-bit pattern; the numbers of a duration, which are never negative, are their
-- values.
--
-- Fuel. A probing loop, also one of the usage metrics, goes round the table once, so it runs on the
-- capacity as its fuel; more fuel changes nothing (Shm/Probe/Outcome). The retries run on their
-- number, and the waiting and polling loops on the list of the rounds in which they find their flag
-- set.
--
-- Not modelled: the calls of nginx, the HTTP exchanges, the directives of the configuration
-- (src/config.rs, src/conf/), which store texts in records, the building of responses
-- (src/response.rs, src/metrics.rs), and the glue of the module (src/lib.rs, src/log.rs,
-- src/thread_task.rs, src/lapi.rs), which is calls of nginx throughout. Of the poller election, and
-- of the functions on the usage metrics, only calls that nothing interrupts are modelled; what is
-- counted while a push waits for its answer is an input. In the callbacks of a posted captcha and
-- of AppSec a failure of memory for a response, or of its sending, is left out or an input. The
-- slab allocator, `kill`, `ngx_shared_memory_add`, the standard library's parsers of addresses and
-- numbers, its `to_lowercase` and `from_utf8`, Base64, JSON, HMAC and the random bytes of a nonce
-- are parameters. Padding bytes and log messages are left out.
pub mod Base
pub mod AppSec
pub mod Captcha
pub mod Expiry
pub mod Handler
pub mod DecisionType
pub mod Origin
pub mod RealIp
pub mod Net
pub mod Shm
pub mod Stream
pub mod RequestBody
pub mod Template
pub mod Usage
pub mod Tests
