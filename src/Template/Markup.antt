-- ===== src/Template/Markup.antt =====
-- What a rendered page is made of.
use ngx_http_crowdsec_module.Base.{
  ℕ, ◌≡◌, refl, ap, ◌∙◌, inl, inr, Bool, false, ◌&&◌, ◌||◌, List, [], ◌∷◌, ◌++◌, ◌==◌,
  if◌then◌else◌, arith, Bool-cases,
}
use ngx_http_crowdsec_module.Base.Text.{Text, codes, starts_with, contains}
use ngx_http_crowdsec_module.Template.{
  html_of, escape_html, EscapeMode, html, TemplateSegment, text, variable, TemplateVariables, flush,
  in_text, scan, parse_with_content_type, get, or_blank, escaped, render_segments, render,
}

-- The characters that HTML gives a meaning, besides the ampersand.
abbrev pub is_markup : ℕ → Bool
is_markup c = c == b'<' || c == b'>' || c == 34 || c == 39

-- The characters that are kept by a test.
abbrev pub keep : (ℕ → Bool) → Text → Text
keep p [] = []
keep p (c ∷ s) = if p c then c ∷ keep p s else keep p s

keep-append : (p : ℕ → Bool) (s t : Text) → keep p (s ++ t) ≡ keep p s ++ keep p t
keep-append p [] t = refl
keep-append p (c ∷ s) t = elim (Bool-cases (p c)) [
  | inl e ↦ rw e (ap (◌∷◌ c) (keep-append p s t))
  | inr e ↦ rw e (keep-append p s t)
]

html_of-markup : (c : ℕ) → keep is_markup (html_of c) ≡ []
html_of-markup c = ground arith

escape_html-markup : (s : Text) → keep is_markup (escape_html s) ≡ []
unfolding escape_html
escape_html-markup [] = refl
escape_html-markup (c ∷ s) =
    rw (keep-append is_markup (html_of c) (escape_html s), html_of-markup c, escape_html-markup s)
      refl

-- The text of the template itself.
abbrev pub literal : List TemplateSegment → Text
literal [] = []
literal (text s ∷ rest) = s ++ literal rest
literal (variable _ ∷ rest) = literal rest

render_segments-markup :
    (mode : EscapeMode) (vars : TemplateVariables) (segments : List TemplateSegment)
    → ((value : Text) → keep is_markup (escaped mode value) ≡ [])
    → keep is_markup (render_segments mode vars segments) ≡ keep is_markup (literal segments)
render_segments-markup mode vars [] h = refl
render_segments-markup mode vars (text s ∷ rest) h =
    rw
      (
        keep-append is_markup s (render_segments mode vars rest),
        keep-append is_markup s (literal rest),
        render_segments-markup mode vars rest h,
      )
      refl
render_segments-markup mode vars (variable name ∷ rest) h =
    rw
      (
        keep-append is_markup (escaped mode (or_blank (get vars name)))
            (render_segments mode vars rest),
        h (or_blank (get vars name)),
      )
      (render_segments-markup mode vars rest h)

-- In a page that is rendered with the escapes for HTML the angle brackets and quotes are those of
-- the template's own text, in their order, whatever the variables hold.
pub render-literal :
    (segments : List TemplateSegment) (content_type : Text) (vars : TemplateVariables)
    → keep is_markup (
        render
          (record { segments = segments; content_type = content_type; escape_mode = html })
          vars)
      ≡ keep is_markup (literal segments)
unfolding render
render-literal segments content_type vars =
    render_segments-markup html vars segments escape_html-markup

append_nil : (s : Text) → s ++ [] ≡ s
append_nil [] = refl
append_nil (c ∷ s) = ap (◌∷◌ c) (append_nil s)

snoc_append : (s : Text) (c : ℕ) (t : Text) → (s ++ (c ∷ [])) ++ t ≡ s ++ (c ∷ t)
snoc_append [] c t = refl
snoc_append (x ∷ s) c t = ap (◌∷◌ x) (snoc_append s c t)

render_flush :
    (mode : EscapeMode) (vars : TemplateVariables) (s : Text) (rest : List TemplateSegment)
    → render_segments mode vars (flush s rest) ≡ s ++ render_segments mode vars rest
render_flush mode vars [] rest = refl
render_flush mode vars (c ∷ s) rest = refl

scan-step :
    (current : Text) (c d : ℕ) (s : Text)
    → (c == b'{' && d == b'{') ≡ false
    → scan (in_text current) (c ∷ d ∷ s) ≡ scan (in_text (current ++ (c ∷ []))) (d ∷ s)
scan-step current c d s bare = rw (bare, scan) refl

-- Content without two braces in a row is one text.
scan_plain :
    (mode : EscapeMode) (vars : TemplateVariables) (current s : Text)
    → contains (codes "{{") s ≡ false
    → render_segments mode vars (scan (in_text current) s) ≡ current ++ s
unfolding contains starts_with
scan_plain mode vars current [] h = render_flush mode vars current []
scan_plain mode vars current (c ∷ []) h =
    render_flush mode vars (current ++ (c ∷ [])) [] ∙ append_nil _
scan_plain mode vars current (c ∷ d ∷ s) h =
    let bare : (c == b'{' && d == b'{') ≡ false = ground arith in
    let later : contains (codes "{{") (d ∷ s) ≡ false = ground arith in
    ap (render_segments mode vars) (scan-step current c d s bare)
    ∙ scan_plain mode vars (current ++ (c ∷ [])) (d ∷ s) later
    ∙ snoc_append current c (d ∷ s)

-- Content without two opening braces in a row is rendered as it is.
pub render-parse_plain :
    (to_lowercase : Text → Text) (content content_type : Text) (vars : TemplateVariables)
    → contains (codes "{{") content ≡ false
    → render (parse_with_content_type to_lowercase content content_type) vars ≡ content
unfolding render parse_with_content_type
render-parse_plain to_lowercase content content_type vars h = scan_plain _ vars [] content h
