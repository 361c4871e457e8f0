-- ===== src/Tests/Inspections.antt =====
-- The theorems on AppSec inspections and on request bodies, where bans are enforced.
use ngx_http_crowdsec_module.AppSec.{
  AppSecBodyContext, AppSecConfig, AppSecLoc, Client, deny, metadata, new_context, passthrough,
  prepare_appsec_request, store_result,
}
use ngx_http_crowdsec_module.AppSec.Contexts.{inspect-finish}
use ngx_http_crowdsec_module.AppSec.Forwarded.{metadata_in, prepare_appsec_request-metadata}
use ngx_http_crowdsec_module.AppSec.Inspect.{
  Machine, holds_context, inspect, resume_body_read, stays,
}
use ngx_http_crowdsec_module.AppSec.Callbacks.{complete, finish}
use ngx_http_crowdsec_module.AppSec.Response.{AppSecResponse, Around}
use ngx_http_crowdsec_module.AppSec.Shut.{holds_back, inspect-holds_back}
use ngx_http_crowdsec_module.AppSec.Verdicts.{Allowed, IsStrict, Unanswered, complete-Allowed}
use ngx_http_crowdsec_module.Base.{◌≡◌, ◌⊎◌, refl, true, false, none, some, [], ◌∷◌}
use ngx_http_crowdsec_module.Base.Text.{codes}
use ngx_http_crowdsec_module.Captcha.Body.{Conversions}
use ngx_http_crowdsec_module.Handler.{HandlerResult, refuse}
use ngx_http_crowdsec_module.RequestBody.{
  BodyRequest, Files, RequestBody, again, extract_request_body_limited,
}
use ngx_http_crowdsec_module.RequestBody.Extracted.{
  Bounded, content, extract_request_body_limited-Bounded,
}
use ngx_http_crowdsec_module.Tests.Requests.{visitor, outside, loc}

-- Addresses have one text, and no file opens.
abbrev conversions : Conversions
conversions = record {
  from_utf8 = λ bytes. some bytes;
  to_lowercase = λ t. t;
  ip_to_string = λ ip. codes "192.0.2.9";
  parse_ip = λ t. some visitor;
}

abbrev files : Files
files = record {
  from_utf8 = λ bytes. some bytes;
  open_file = λ path. false;
  read_file = λ path n. none;
}

abbrev around : Around
around = record { o = outside; store = none; now = 1000; from_u16 = λ n. some n; sends_raw = true }

abbrev strict : AppSecLoc
strict = record {
  loc = record loc { unenforceable_action = some refuse };
  appsec_failure_action = some deny;
  bot_challenge_enabled = none;
}

strict-IsStrict : IsStrict around strict
strict-IsStrict = record { refuses = refl; status = refl }

abbrev config : AppSecConfig
config = record {
  url = codes "http://127.0.0.1:7422/";
  api_key = codes "k";
  timeout_ms = 200;
  max_body_size = 8;
  drop_unreadable_body = false;
}

-- The client names an address of its own.
abbrev client : Client
client = record {
  uri = some (codes "/login");
  user_agent = none;
  headers =
      (codes "Host", codes "example.org") ∷ (codes "x-crowdsec-appsec-ip", codes "10.0.0.1") ∷ [];
  verb = codes "POST";
  http_version = 1001;
}

abbrev machine : Machine
machine = record {
  std = conversions;
  files = files;
  user_agent = codes "module/1.0";
  allocates = true;
  reading = again;
  takes = true;
}

abbrev held : RequestBody
held = record { temp_file = none; bufs = some (1 ∷ 2 ∷ []) ∷ none ∷ some (3 ∷ []) ∷ [] }

abbrev posted : BodyRequest
posted = record { content_length_n = some 3; chunked = false; request_body = some held }

extract_request_body_limited-Bounded_example :
    Bounded 8 (content held.bufs) (extract_request_body_limited files posted 8 false)
extract_request_body_limited-Bounded_example =
    extract_request_body_limited-Bounded files posted held 8 false refl refl

prepare_appsec_request-metadata_example :
    metadata_in
      (prepare_appsec_request (codes "module/1.0") config (codes "192.0.2.9") client true).set
    ≡ metadata config (codes "192.0.2.9") client
prepare_appsec_request-metadata_example =
    prepare_appsec_request-metadata (codes "module/1.0") config (codes "192.0.2.9") client true

inspect-holds_back_example :
    holds_back
      (inspect machine around strict
        (some config)
        (some visitor)
        client
        posted
        false
        false
        none).outcome.1
    ≡ true
inspect-holds_back_example =
    inspect-holds_back around strict strict-IsStrict machine (some config) (some visitor) client
      posted false false none refl refl (unfold resume_body_read in refl)

abbrev context : AppSecBodyContext
context = new_context (codes "192.0.2.9") passthrough false false false

context_kept : holds_context (some context) ≡ true
unfolding new_context
context_kept = refl

inspect-finish_example :
    inspect machine around strict
      (some config)
      (some visitor)
      client
      posted
      false
      false
      (finish HandlerResult.forbidden (some context)).0
    ≡ stays (some (store_result HandlerResult.forbidden context)) ([], HandlerResult.forbidden)
inspect-finish_example =
    inspect-finish machine around strict (some config) (some visitor) client posted false false
      context HandlerResult.forbidden (unfold new_context in refl) refl

abbrev accepted : AppSecResponse
accepted = record { status = 200; envelope = none }

complete-Allowed_example :
    Allowed (some accepted)
    ⊎ ((deny ≡ passthrough) × ((holds_context (some context) ≡ false) ⊎ Unanswered (some accepted)))
complete-Allowed_example =
    complete-Allowed around strict strict-IsStrict visitor deny false (some accepted) (some context)
      (unfold complete new_context finish in refl)
