-- ===== src/Captcha/Jwt/Signed.antt =====
-- Which tokens are accepted.
use ngx_http_crowdsec_module.Base.{
  ℕ, ◌≡◌, refl, ap, sym, ◌∙◌, subst, inl, inr, Bool, true, false, Option, none, some, List, [], ◌∷◌,
  ◌++◌, bytes_eq, bytes_eq_iff, AreBytes, arith, Bool-cases, none≢some,
}
use ngx_http_crowdsec_module.Base.Split.{split-append, split_plain}
use ngx_http_crowdsec_module.Base.Text.{Text, codes, split, utf8, contains_char}
use ngx_http_crowdsec_module.Base.Words.{i64_ge, i64_add}
use ngx_http_crowdsec_module.Captcha.Jwt.{
  CaptchaClaims, JwtError, invalid_signature, invalid_key, Crypto, Result, ◌>>=◌, or_err,
  message_of, header_b64, create_token, three, same_mac, claims_in, verify_parts, verify_token,
  ip_matches, validate, verify_and_validate,
}

-- What the libraries document: Base64 is undone by its decoder and has no dots, a key of any length
-- has a code, and the claims are read back from their JSON.
pub record IsCrypto (c : Crypto) (claims : CaptchaClaims) : Type 0 where
  pub decode-encode : (b : List ℕ) → AreBytes b → c.decode (c.encode b) ≡ some b
  pub undotted : (b : List ℕ) → AreBytes b → contains_char b'.' (c.encode b) ≡ false
  pub code : (key m : List ℕ) → (mac : List ℕ) × (c.hmac key m ≡ some mac) × AreBytes mac
  pub json_bytes : AreBytes (utf8 (c.to_json claims))
  pub json_text : c.from_utf8 (utf8 (c.to_json claims)) ≡ some (c.to_json claims)
  pub from_json-to_json : c.from_json (c.to_json claims) ≡ some claims

header_bytes : AreBytes (utf8 (codes "{\"alg\":\"HS256\",\"typ\":\"JWT\"}"))
unfolding utf8
header_bytes = ground arith

-- The three parts of a token that is put together from them.
three_parts :
    (h p s : Text)
    → contains_char b'.' h ≡ false
    → contains_char b'.' p ≡ false
    → contains_char b'.' s ≡ false
    → three (split b'.' ((h ++ (b'.' ∷ p)) ++ (b'.' ∷ s))) ≡ inl (h, p, s)
three_parts h p s plain_h plain_p plain_s =
    rw
      (
        split-append b'.' (h ++ (b'.' ∷ p)) s,
        split-append b'.' h p,
        split_plain b'.' h plain_h,
        split_plain b'.' p plain_p,
        split_plain b'.' s plain_s,
      )
      refl

bytes_eq_refl : (b : List ℕ) → bytes_eq b b ≡ true
bytes_eq_refl b = let (_, back) = bytes_eq_iff b b in back refl

inr≢inl : {A : Type 0} (x : JwtError) (a : A) → ◌≡◌ {A = Result A} (inr x) (inl a) → ⊥
inr≢inl x a e = ground arith

inl_injective : {A : Type 0} (x y : A) → ◌≡◌ {A = Result A} (inl x) (inl y) → x ≡ y
inl_injective x y e = ground arith

module _ (c : Crypto) (claims : CaptchaClaims) (ok : IsCrypto c claims) (key : List ℕ) where
  claims_in-encode : claims_in c (c.encode (utf8 (c.to_json claims))) ≡ inl claims
  claims_in-encode =
      rw
        (
          ok.decode-encode (utf8 (c.to_json claims)) ok.json_bytes,
          ok.json_text,
          ok.from_json-to_json,
        )
        refl

  -- A token with the code of its first two parts.
  coded_token :
      (h p : Text) (mac : List ℕ)
      → contains_char b'.' h ≡ false
      → contains_char b'.' p ≡ false
      → c.hmac key (utf8 (h ++ (b'.' ∷ p))) ≡ some mac
      → AreBytes mac
      → verify_token c key ((h ++ (b'.' ∷ p)) ++ (b'.' ∷ c.encode mac)) ≡ claims_in c p
  unfolding verify_token
  coded_token h p mac plain_h plain_p coded bytes =
      rw
        (
          three_parts h p (c.encode mac) plain_h plain_p (ok.undotted mac bytes),
          ok.decode-encode mac bytes,
          coded,
          bytes_eq_refl mac,
        )
        refl

  header_b64_undotted : contains_char b'.' (header_b64 c) ≡ false
  unfolding header_b64
  header_b64_undotted = ok.undotted _ header_bytes

  message_of_parts :
      message_of c claims ≡ header_b64 c ++ (b'.' ∷ c.encode (utf8 (c.to_json claims)))
  unfolding message_of
  message_of_parts = refl

  created_token :
      (token : Text) (mac : List ℕ)
      → c.hmac key (utf8 (message_of c claims)) ≡ some mac
      → create_token c key claims ≡ inl token
      → token ≡ message_of c claims ++ (b'.' ∷ c.encode mac)
  unfolding create_token
  created_token token mac coded e = sym (inl_injective _ _ (rw coded at e))

  -- r
  pub verify_token-create_token :
      (token : Text) → create_token c key claims ≡ inl token → verify_token c key token ≡ inl claims
  verify_token-create_token token e =
      let payload = c.encode (utf8 (c.to_json claims)) in
      let (mac, coded, mac_bytes) = ok.code key (utf8 (header_b64 c ++ (b'.' ∷ payload))) in
      let parts = message_of_parts in
      rw (created_token token mac (rw parts coded) e, parts)
        (coded_token (header_b64 c) payload mac header_b64_undotted (ok.undotted _ ok.json_bytes)
            coded mac_bytes
          ∙ claims_in-encode)

-- The parts of a token and the code of the first two.
abbrev pub Signs : Crypto → List ℕ → Text → CaptchaClaims → Type 0
Signs c key token claims =
    (h : Text) × (p : Text) × (s : Text) × (mac : List ℕ) × (split b'.' token ≡ h ∷ p ∷ s ∷ [])
    × (c.hmac key (utf8 (h ++ (b'.' ∷ p))) ≡ some mac)
    × (c.decode s ≡ some mac)
    × (claims_in c p ≡ inl claims)

bind-inl :
    {A B : Type 0} (r : Result A) (f : A → Result B) (b : B)
    → (r >>= f) ≡ inl b
    → (a : A) × (r ≡ inl a) × (f a ≡ inl b)
bind-inl (inl a) f b e = (a, refl, e)
bind-inl (inr x) f b e = absurd (ground arith)

or_err-inl : {A : Type 0} (x : JwtError) (o : Option A) (a : A) → or_err x o ≡ inl a → o ≡ some a
or_err-inl x none a e = absurd (ground arith)
or_err-inl x (some b) a e = ground arith

three-inl :
    (parts : List Text) (x : Text × Text × Text)
    → three parts ≡ inl x
    → parts ≡ x.0 ∷ x.1 ∷ x.2 ∷ []
three-inl [] x e = absurd (ground arith)
three-inl (h ∷ []) x e = absurd (ground arith)
three-inl (h ∷ p ∷ []) x e = absurd (ground arith)
three-inl (h ∷ p ∷ s ∷ []) x e =
    let same = inl_injective (h, p, s) x e in
    ap (λ (t : Text × Text × Text). t.0 ∷ t.1 ∷ t.2 ∷ []) same
three-inl (h ∷ p ∷ s ∷ more ∷ rest) x e = absurd (ground arith)

same_mac-inl :
    (mac signature : List ℕ) (b : Bool) → same_mac mac signature ≡ inl b → mac ≡ signature
same_mac-inl mac signature b e = elim (Bool-cases (bytes_eq mac signature)) [
  | inl same ↦ let (there, _) = bytes_eq_iff mac signature in there same
  | inr other ↦ absurd (inr≢inl invalid_signature b (rw other at e))
]

verify_token-Signs :
    (c : Crypto) (key : List ℕ) (token : Text) (claims : CaptchaClaims)
    → verify_token c key token ≡ inl claims
    → Signs c key token claims
unfolding verify_token
verify_token-Signs c key token claims e =
    let ((h, p, s), at_parts, e1) =
      bind-inl (three (split b'.' token)) (verify_parts c key) claims e in
    let (signature, at_sig, e2) = bind-inl (or_err invalid_signature (c.decode s)) _ claims e1 in
    let (mac, at_mac, e3) =
      bind-inl (or_err invalid_key (c.hmac key (utf8 (h ++ (b'.' ∷ p))))) _ claims e2 in
    let (b, at_b, e4) = bind-inl (same_mac mac signature) _ claims e3 in
    let same = same_mac-inl mac signature b at_b in
    (
      h,
      p,
      s,
      mac,
      three-inl (split b'.' token) (h, p, s) at_parts,
      or_err-inl invalid_key _ mac at_mac,
      rw same (or_err-inl invalid_signature _ signature at_sig),
      e4,
    )

-- What is checked of the claims.
pub record Accepts (now : ℕ) (client_ip : Option Text) (claims : CaptchaClaims) : Type 0 where
  pub unexpired : i64_ge claims.exp now ≡ true
  pub issued : i64_ge (i64_add now 60) claims.iat ≡ true
  pub passed : claims.typ ≡ codes "captcha_pass"
  pub bound : (ip : Text) → client_ip ≡ some ip → claims.sub ≡ ip

ip_matches-bound :
    (client_ip : Option Text) (sub : Text)
    → ip_matches client_ip sub ≡ true
    → (ip : Text) → client_ip ≡ some ip
    → sub ≡ ip
ip_matches-bound none sub h ip e = absurd (none≢some e)
ip_matches-bound (some a) sub h ip e =
    let (same, _) = bytes_eq_iff sub a in let a_is : a ≡ ip = ground arith in same h ∙ a_is

validate-Accepts :
    (now : ℕ) (client_ip : Option Text) (claims claims' : CaptchaClaims)
    → validate now client_ip claims ≡ inl claims'
    → (claims ≡ claims') × Accepts now client_ip claims
validate-Accepts now client_ip claims claims' e =
    let unexp : i64_ge claims.exp now ≡ true = ground arith in
    let iss : i64_ge (i64_add now 60) claims.iat ≡ true = ground arith in
    let typed : bytes_eq claims.typ (codes "captcha_pass") ≡ true = ground arith in
    let matched : ip_matches client_ip claims.sub ≡ true = ground arith in
    let (typ_is, _) = bytes_eq_iff claims.typ (codes "captcha_pass") in
    (
      inl_injective claims claims' (rw (unexp, typed, iss, matched) at e),
      record {
        unexpired = unexp;
        issued = iss;
        passed = typ_is typed;
        bound = ip_matches-bound client_ip claims.sub matched;
      },
    )

-- A token that is accepted has three parts, the last the code of the first two under the signing
-- key, and claims that have not expired, were issued no more than a minute ahead, are those of a
-- passed captcha, and name the address of the client where one is asked for.
pub verify_and_validate-Accepts :
    (c : Crypto) (key : List ℕ) (now : ℕ) (token : Text) (client_ip : Option Text)
    (claims : CaptchaClaims)
    → verify_and_validate c key now token client_ip ≡ inl claims
    → Signs c key token claims × Accepts now client_ip claims
unfolding verify_and_validate
verify_and_validate-Accepts c key now token client_ip claims e =
    let (claims', at_claims, e1) =
      bind-inl (verify_token c key token) (validate now client_ip) claims e in
    let (same, accepted) = validate-Accepts now client_ip claims' claims e1 in
    (
      verify_token-Signs c key token claims (rw same at at_claims),
      subst (Accepts now client_ip) same accepted,
    )
