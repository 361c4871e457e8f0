-- ===== src/Tests/Pages.antt =====
-- The theorems on rendered pages at concrete templates.
use ngx_http_crowdsec_module.Base.{◌≡◌, refl, none, some, List, [], ◌∷◌}
use ngx_http_crowdsec_module.Base.Text.{codes}
use ngx_http_crowdsec_module.Template.Markup.{is_markup, keep, literal, render-literal}
use ngx_http_crowdsec_module.Template.{
  TemplateSegment, text, variable, TemplateVariables, html, render, parse_with_content_type,
}

abbrev hostile : TemplateVariables
hostile = record {
  client_ip = some (codes "192.0.2.9");
  request_uri = some (codes "/<script>alert('x')</script>");
  request_method = none;
  scenario = none;
  origin = none;
  host = none;
  captcha_site_key = none;
  captcha_script_url = none;
  captcha_div_class = none;
  captcha_error = none;
  form_action = none;
}

abbrev page : List TemplateSegment
page = text (codes "<p>") ∷ variable (codes "request_uri") ∷ text (codes "</p>") ∷ []

render-literal_example :
    keep is_markup (
      render
        (record { segments = page; content_type = codes "text/html"; escape_mode = html })
        hostile)
    ≡ keep is_markup (literal page)
render-literal_example = render-literal page (codes "text/html") hostile

-- Two braces that are never closed get one brace more, and blank ones lose those that close them.
unclosed_run :
    render (parse_with_content_type (λ s. s) (codes "a {{name") (codes "text/html")) hostile
    ≡ codes "a {{name}"
unfolding render parse_with_content_type
unclosed_run = refl

blank_run :
    render (parse_with_content_type (λ s. s) (codes "a {{ }} b") (codes "text/html")) hostile
    ≡ codes "a {{  b"
unfolding render parse_with_content_type
blank_run = refl
