-- ===== src/Template.antt =====
-- src/template.rs: pages with `{{name}}` in them. The reading of the file and the parts of its path
-- are left out, and `str::to_lowercase` is a parameter.
pub mod Markup
use ngx_http_crowdsec_module.Base.{
  ℕ, ◌+◌, ◌/◌, ◌%◌, Bool, true, false, ◌&&◌, ◌||◌, Option, none, some, List, [], ◌∷◌, ◌++◌, ltb,
  ◌==◌, if◌then◌else◌, bytes_eq,
}
use ngx_http_crowdsec_module.Base.Text.{Text, codes, within, trim, contains}

abbrev pub html_of : ℕ → Text
html_of c =
    if c == b'&'
    then codes "&amp;"
    else if c == b'<'
    then codes "&lt;"
    else if c == b'>'
    then codes "&gt;"
    else if c == 34
    then codes "&quot;"
    else if c == 39
    then codes "&#x27;"
    else c ∷ []

unfoldable pub escape_html : Text → Text
escape_html [] = []
escape_html (c ∷ s) = html_of c ++ escape_html s

-- `char::is_control`
abbrev pub is_control : ℕ → Bool
is_control c = ltb c 32 || within 127 159 c

abbrev hex_digit : ℕ → ℕ
hex_digit n = if ltb n 10 then b'0' + n else 87 + n

-- The control characters are below 256, so that two of their four digits are zeros.
abbrev pub json_of : ℕ → Text
json_of c =
    if c == 34
    then 92 ∷ 34 ∷ []
    else if c == 92
    then 92 ∷ 92 ∷ []
    else if c == 10
    then 92 ∷ b'n' ∷ []
    else if c == 13
    then 92 ∷ b'r' ∷ []
    else if c == 9
    then 92 ∷ b't' ∷ []
    else if is_control c
    then 92 ∷ b'u' ∷ b'0' ∷ b'0' ∷ hex_digit (c / 16) ∷ hex_digit (c % 16) ∷ []
    else c ∷ []

unfoldable pub escape_json : Text → Text
escape_json [] = []
escape_json (c ∷ s) = json_of c ++ escape_json s

pub data EscapeMode : Type 0 where
  html json xml unescaped : EscapeMode

pub data TemplateSegment : Type 0 where
  text variable : Text → TemplateSegment

pub record Template : Type 0 where
  pub segments : List TemplateSegment
  pub content_type : Text
  pub escape_mode : EscapeMode

abbrev mode_of : Text → EscapeMode
mode_of ct_lower =
    if contains (codes "text/html") ct_lower || contains (codes "application/xhtml") ct_lower
    then html
    else if contains (codes "application/json") ct_lower
    then json
    else if contains (codes "application/xml") ct_lower || contains (codes "text/xml") ct_lower
    then xml
    else if contains (codes "text/plain") ct_lower
    then unescaped
    else html

unfoldable pub escape_mode_from_content_type : (Text → Text) → Text → EscapeMode
unfolding contains
escape_mode_from_content_type to_lowercase content_type = mode_of (to_lowercase content_type)

-- Text that is not empty becomes a segment.
abbrev pub flush : Text → List TemplateSegment → List TemplateSegment
flush [] rest = rest
flush (c ∷ s) rest = text (c ∷ s) ∷ rest

-- What the two loops have read of a segment: the current text, or the name behind two braces.
pub data Reading : Type 0 where
  in_text in_name : Text → Reading

abbrev is_blank : Text → Bool
is_blank [] = true
is_blank (_ ∷ _) = false

-- The loops over the rest of the content.
abbrev pub scan : Reading → Text → List TemplateSegment
scan (in_text current) [] = flush current []
scan (in_text current) (c ∷ []) = flush (current ++ (c ∷ [])) []
scan (in_text current) (c ∷ d ∷ s) = elim (c == b'{' && d == b'{') [
  | true ↦ flush current (scan (in_name []) s)
  | false ↦ scan (in_text (current ++ (c ∷ []))) (d ∷ s)
]
scan (in_name name) [] = flush (b'{' ∷ b'{' ∷ name ++ (b'}' ∷ [])) []
scan (in_name name) (c ∷ []) = flush (b'{' ∷ b'{' ∷ (name ++ (c ∷ [])) ++ (b'}' ∷ [])) []
scan (in_name name) (c ∷ d ∷ s) = elim (c == b'}' && d == b'}') [
  | true ↦ elim (is_blank (trim name)) [
    | true ↦ scan (in_text (b'{' ∷ b'{' ∷ name)) s
    | false ↦ variable (trim name) ∷ scan (in_text []) s
  ]
  | false ↦ scan (in_name (name ++ (c ∷ []))) (d ∷ s)
]

unfoldable pub parse_with_content_type : (Text → Text) → Text → Text → Template
unfolding escape_mode_from_content_type trim
parse_with_content_type to_lowercase content content_type = record {
  segments = scan (in_text []) content;
  content_type = content_type;
  escape_mode = escape_mode_from_content_type to_lowercase content_type;
}

abbrev content_type_of : Text → Text
content_type_of extension =
    if bytes_eq extension (codes "json")
    then codes "application/json; charset=utf-8"
    else if bytes_eq extension (codes "xml")
    then codes "application/xml; charset=utf-8"
    else if bytes_eq extension (codes "txt")
    then codes "text/plain; charset=utf-8"
    else codes "text/html; charset=utf-8"

-- For the extension of a path, where it has one that is a text.
unfoldable pub content_type_from_extension : Option Text → Text
unfolding bytes_eq
content_type_from_extension none = codes "text/html; charset=utf-8"
content_type_from_extension (some extension) = content_type_of extension

pub record TemplateVariables : Type 0 where
  pub client_ip : Option Text
  pub request_uri : Option Text
  pub request_method : Option Text
  pub scenario : Option Text
  pub origin : Option Text
  pub host : Option Text
  pub captcha_site_key : Option Text
  pub captcha_script_url : Option Text
  pub captcha_div_class : Option Text
  pub captcha_error : Option Text
  pub form_action : Option Text

unfoldable pub get : TemplateVariables → Text → Option Text
unfolding bytes_eq
get vars name =
    if bytes_eq name (codes "client_ip")
    then vars.client_ip
    else if bytes_eq name (codes "request_uri")
    then vars.request_uri
    else if bytes_eq name (codes "request_method")
    then vars.request_method
    else if bytes_eq name (codes "scenario")
    then vars.scenario
    else if bytes_eq name (codes "origin")
    then vars.origin
    else if bytes_eq name (codes "host")
    then vars.host
    else if bytes_eq name (codes "captcha_site_key")
    then vars.captcha_site_key
    else if bytes_eq name (codes "captcha_script_url")
    then vars.captcha_script_url
    else if bytes_eq name (codes "captcha_div_class")
    then vars.captcha_div_class
    else if bytes_eq name (codes "captcha_error")
    then vars.captcha_error
    else if bytes_eq name (codes "form_action")
    then vars.form_action
    else none

abbrev pub or_blank : Option Text → Text
or_blank none = []
or_blank (some s) = s

abbrev pub escaped : EscapeMode → Text → Text
escaped html value = escape_html value
escaped json value = escape_json value
escaped xml value = escape_html value
escaped unescaped value = value

abbrev pub render_segments : EscapeMode → TemplateVariables → List TemplateSegment → Text
render_segments mode vars [] = []
render_segments mode vars (text s ∷ rest) = s ++ render_segments mode vars rest
render_segments mode vars (variable name ∷ rest) =
    escaped mode (or_blank (get vars name)) ++ render_segments mode vars rest

unfoldable pub render : Template → TemplateVariables → Text
unfolding get escape_html escape_json
render t vars = render_segments (t.escape_mode) vars (t.segments)
