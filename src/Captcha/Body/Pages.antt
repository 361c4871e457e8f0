-- ===== src/Captcha/Body/Pages.antt =====
-- The responses of src/captcha/body.rs and the page of src/captcha/handler.rs. A response is what is
-- handed to nginx; that memory for it is there and that it goes out is not modelled.
use ngx_http_crowdsec_module.Base.{
  ℕ, Bool, true, not, ◌&&◌, ◌||◌, Option, none, some, List, [], ◌∷◌, ◌++◌, ◌==◌, if◌then◌else◌,
  length, any, all,
}
use ngx_http_crowdsec_module.Base.Text.{Text, codes, is_ascii_digit, within}
use ngx_http_crowdsec_module.Captcha.Body.{CaptchaConfig, Conversions}
use ngx_http_crowdsec_module.Captcha.Config.{script_url, div_class}
use ngx_http_crowdsec_module.Captcha.Cookie.{Header, lax, build_set_cookie}
use ngx_http_crowdsec_module.Captcha.Redirect.{sanitize_return_uri, is_safe_header_value}
use ngx_http_crowdsec_module.Net.{IpAddr}
use ngx_http_crowdsec_module.RequestBody.{BodyExtractResult}
use ngx_http_crowdsec_module.Template.{Template, TemplateVariables, render}

pub record Response : Type 0 where
  pub status : ℕ
  pub headers : List (Text × Text)
  pub content : Text

abbrev pub is_name_char : ℕ → Bool
is_name_char b = is_ascii_digit b || within b'A' b'Z' b || within b'a' b'z' b || b == b'-'

abbrev pub is_header_name : Text → Bool
is_header_name name =
    not (length name == 0)
    && not (any (λ c. c == 13 || c == 10 || c == b':') name)
    && all is_name_char name

-- A header that is not safe is left out.
unfoldable pub add_header : Text × Text → List (Text × Text) → List (Text × Text)
unfolding is_safe_header_value is_ascii_digit
add_header (name, value) headers =
    if not (is_safe_header_value value) || not (is_header_name name)
    then headers
    else headers ++ ((name, value) ∷ [])

abbrev add_headers : List (Text × Text) → List (Text × Text) → List (Text × Text)
add_headers [] headers = headers
add_headers (h ∷ hs) headers = add_headers hs (add_header h headers)

unfoldable pub send_buffered_response : ℕ → List (Text × Text) → Text → Response
unfolding add_header
send_buffered_response status headers content = record {
  status = status;
  headers = add_headers headers [];
  content = content;
}

unfoldable pub captcha_template_vars :
    Conversions → CaptchaConfig → IpAddr → Text → Option Text → TemplateVariables
unfolding script_url div_class
captcha_template_vars std config client_ip form_action error_message = record {
  client_ip = some (std.ip_to_string client_ip);
  request_uri = none;
  request_method = none;
  scenario = none;
  origin = none;
  host = none;
  captcha_site_key = some config.site_key;
  captcha_script_url = some (script_url config.provider);
  captcha_div_class = some (div_class config.provider);
  captcha_error = error_message;
  form_action = some form_action;
}

-- What the callbacks read of the request: its unparsed URI where that is a text, the template of its
-- location, the body that nginx read, the same as a text, and what tells whether the connection is encrypted.
pub record Visit : Type 0 where
  pub unparsed_uri : Option Text
  pub template : Option Template
  pub extracted : BodyExtractResult
  pub ssl : Bool
  pub from_proxy : Bool
  pub headers : List Header

abbrev uri_or_root : Option Text → Text
uri_or_root none = codes "/"
uri_or_root (some uri) = uri

unfoldable pub captcha_return_uri : Option Text → Text
unfolding sanitize_return_uri
captcha_return_uri uri = sanitize_return_uri (uri_or_root uri)

-- `send_captcha_page` as far as the page: for the path and the method of the request.
unfoldable pub captcha_page :
    Conversions
    → CaptchaConfig
    → Option Template
    → IpAddr
    → Option Text
    → Option Text
    → Text
    → Option Text
    → Option Response
unfolding captcha_template_vars captcha_return_uri render
captcha_page std config none client_ip uri path method error_message = none
captcha_page std config (some t) client_ip uri path method error_message =
    let vars = captcha_template_vars std config client_ip (captcha_return_uri uri) error_message in
    some (record {
      status = 200;
      headers =
          (codes "Content-Type", codes "text/html; charset=utf-8")
          ∷ (codes "Cache-Control", codes "no-store, no-cache, must-revalidate, max-age=0")
          ∷ (codes "Pragma", codes "no-cache")
          ∷ [];
      content = render t (record vars { request_uri = path; request_method = some method });
    })

unfoldable pub error_page : Conversions → Template → CaptchaConfig → IpAddr → Text → Text → Response
unfolding captcha_template_vars render send_buffered_response
error_page std t config client_ip form_action error_message =
    send_buffered_response 200
      ((codes "Content-Type", codes "text/html; charset=utf-8")
        ∷ (codes "Cache-Control", codes "no-store, no-cache, must-revalidate, max-age=0")
        ∷ (codes "Pragma", codes "no-cache")
        ∷ [])
      (render t (captcha_template_vars std config client_ip form_action (some error_message)))

unfoldable pub success_redirect : (ℕ → Text) → CaptchaConfig → Bool → Text → Text → Response
unfolding build_set_cookie send_buffered_response
success_redirect decimal config is_secure token redirect_uri =
    send_buffered_response 303
      ((codes "Location", redirect_uri)
        ∷ (
          codes "Set-Cookie",
          build_set_cookie decimal config.cookie_name token config.expiry_secs (codes "/") is_secure
              true lax,
        )
        ∷ (codes "Content-Type", codes "text/plain")
        ∷ (codes "Cache-Control", codes "no-store, no-cache, must-revalidate")
        ∷ [])
      (codes "Redirecting...")
