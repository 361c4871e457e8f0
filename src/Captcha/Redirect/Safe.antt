-- ===== src/Captcha/Redirect/Safe.antt =====
-- What `sanitize_return_uri` answers.
use ngx_http_crowdsec_module.Base.{
  ℕ, ◌≡◌, ◌≢◌, refl, ap, sym, ◌∙◌, inl, inr, Bool, true, false, [], ◌∷◌, ◌++◌, ◌==◌, any, arith,
  Bool-cases, false≢true,
}
use ngx_http_crowdsec_module.Base.Text.{Text, codes, trim, starts_with, contains}
use ngx_http_crowdsec_module.Captcha.Redirect.{is_banned, is_return_uri, sanitize_return_uri}

starts_with-append : (p s : Text) → starts_with p (p ++ s) ≡ true
unfolding starts_with
starts_with-append [] s = refl
starts_with-append (c ∷ p) s =
    let same : (c == c) ≡ true = ground arith in rw same (starts_with-append p s)

-- What contains a text is found to contain it.
contains-append : (a p b : Text) → contains p (a ++ (p ++ b)) ≡ true
unfolding contains
contains-append [] [] [] = refl
contains-append [] [] (x ∷ b) = refl
contains-append [] (c ∷ p) b = rw (starts_with-append (c ∷ p) b) refl
contains-append (x ∷ a) p b = ground (arith, contains-append a p b)

any_member : (p : ℕ → Bool) (a : Text) (c : ℕ) (b : Text) → p c ≡ true → any p (a ++ (c ∷ b)) ≡ true
any_member p [] c b h = rw h refl
any_member p (x ∷ a) c b h = ground (arith, any_member p a c b h)

-- One slash at the start, no backslash, no carriage return, no line feed and no `://`.
pub record OnSite (uri : Text) : Type 0 where
  pub rooted : (path : Text) × (uri ≡ b'/' ∷ path)
  pub single : (path : Text) → uri ≢ b'/' ∷ b'/' ∷ path
  pub plain : (a b : Text) (c : ℕ) → uri ≡ a ++ (c ∷ b) → (c ≢ 92) × (c ≢ 13) × (c ≢ 10)
  pub schemeless : (a b : Text) → uri ≢ a ++ (codes "://" ++ b)

not_banned : (c : ℕ) → is_banned c ≡ false → (c ≢ 92) × (c ≢ 13) × (c ≢ 10)
not_banned c h = ground arith

rooted_uri : (uri : Text) → starts_with (codes "/") uri ≡ true → (path : Text) × (uri ≡ b'/' ∷ path)
unfolding starts_with
rooted_uri [] h = absurd (ground arith)
rooted_uri (c ∷ path) h = let slash : c ≡ b'/' = ground arith in (path, ap (λ x. x ∷ path) slash)

is_return_uri-OnSite : (uri : Text) → is_return_uri uri ≡ true → OnSite uri
is_return_uri-OnSite uri h =
    let one : starts_with (codes "/") uri ≡ true = ground arith in
    let two : starts_with (codes "//") uri ≡ false = ground arith in
    let banned : any is_banned uri ≡ false = ground arith in
    let scheme : contains (codes "://") uri ≡ false = ground arith in
    record {
      rooted = rooted_uri uri one;
      single = λ path e. false≢true (sym two ∙ (rw e (starts_with-append (codes "//") path)));
      plain = λ a b c e. elim (Bool-cases (is_banned c)) [
        | inl bad ↦ absurd (false≢true (sym banned ∙ rw e (any_member is_banned a c b bad)))
        | inr good ↦ not_banned c good
      ];
      schemeless = λ a b e. false≢true (sym scheme ∙ rw e (contains-append a (codes "://") b));
    }

-- Whatever it is given, sanitize_return_uri answers a text with one slash at the start, and no
-- second one behind it, without a backslash, a carriage return, a line feed or a colon with two
-- slashes.
pub sanitize_return_uri-OnSite : (raw : Text) → OnSite (sanitize_return_uri raw)
unfolding sanitize_return_uri
sanitize_return_uri-OnSite raw = elim (Bool-cases (is_return_uri (trim raw))) [
  | inl e ↦ rw e (is_return_uri-OnSite (trim raw) e)
  | inr e ↦ rw e (is_return_uri-OnSite (codes "/") (unfold starts_with contains in refl))
]
