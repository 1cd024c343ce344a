-- ===== src/JwtInspect/Inspector/Flow.antt =====
-- What the inspector of tokens accepts, and what its summary says of a token without an expiry.
use spiffecli.Prelude.{
  ℕ, ◌≡◌, ◌≢◌, ◌↔◌, refl, ap, sym, ◌∙◌, inl, inr, Bool, Bool-cases, true, false, not, none, List,
  [], ◌∷◌, Result, Result-cases, ok, ◌>>=◌, >>=-eq-ok, guard, guard-eq-ok, map_err, map_err-eq-ok,
  String, ◌=ₛ◌, =ₛ_iff, is_empty,
}
use spiffecli.Prelude.Int.{ℤ, pos, ◌<ℤ◌, ltb_ℤ, ltb_ℤ_iff}
use spiffecli.Jwt.{Token, Claims, JoseLib}
use spiffecli.JwtInspect.{JwtReason, is_svid}
use spiffecli.JwtInspect.Conformance.{IsJwtSvid, is_svid_iff}
use spiffecli.JwtSvid.Validation.{set_of_test}
use spiffecli.JwtInspect.Output.{OutputLib, OutputOptions, expiry_text, field}
use spiffecli.JwtInspect.Inspector.{
  JwtInspector, InspectError, no_filename, token_not_svid, not_read, svid_check_failed,
  to_not_deserialized, InspectLib, load_token, answer_svid, respond, inspect,
}

-- An answer without reasons is the only positive one.
answer_cases :
    (rs : List JwtReason) (answer : Bool × List JwtReason)
    → ◌≡◌ {A = Result String (Bool × List JwtReason)} (ok (is_empty rs, rs)) (ok answer)
    → answer.0 ≡ true
    → ◌≡◌ {A = Result String (Bool × List JwtReason)} (ok (is_empty rs, rs)) (ok (true, []))
answer_cases [] answer h positive = refl
answer_cases (r ∷ rs) answer h positive =
    let same : ◌≡◌ {A = Bool × List JwtReason} (false, r ∷ rs) answer = cc (h) in
    let no' : false ≡ answer.0 = ap (λ p. p.0) same in cc

is_svid-positive :
    (jose : JoseLib) (tok : Token) (answer : Bool × List JwtReason)
    → is_svid jose tok ≡ ok answer
    → answer.0 ≡ true
    → is_svid jose tok ≡ ok (true, [])
unfolding is_svid
is_svid-positive jose tok answer h positive = elim (Result-cases tok.claims) [
  | inr (e, failed) ↦ cc (rw (failed, is_svid) at h)
  | inl (c, read) ↦ rw (read, is_svid) (answer_cases _ answer (rw (read, is_svid) at h) positive)
]

module _ {M Z : Type 0} (lib : InspectLib M Z) where
  -- A file that holds a token which has what a JWT-SVID needs.
  pub record IsSvidFile (filename : String) : Type 0 where
    pub text : String
    pub tok : Token
    pub claims : Claims
    pub named : filename ≢ ""
    pub read : lib.read_file filename ≡ ok text
    pub parsed : lib.parse_signed text ≡ ok tok
    pub readable : tok.claims ≡ ok claims
    pub conforms : IsJwtSvid lib.jose tok claims

  load_token-eq :
      (filename text : String) (tok : Token)
      → filename ≢ ""
      → lib.read_file filename ≡ ok text
      → lib.parse_signed text ≡ ok tok
      → load_token lib filename ≡ ok tok
  unfolding load_token
  load_token-eq filename text tok named read parsed = elim (Bool-cases (filename =ₛ "")) [
    | inl e ↦ absurd (named ((=ₛ_iff filename "").0 e))
    | inr e ↦ rw (e, read, parsed, load_token) refl
  ]

  respond-svid :
      (i : JwtInspector) (tok : Token) → i.is_svid ≡ true → respond lib i tok ≡ answer_svid lib tok
  unfolding respond
  respond-svid i tok h = rw (h, respond) refl

  answer_svid-positive :
      (tok : Token) → is_svid lib.jose tok ≡ ok (true, []) → answer_svid lib tok ≡ ok []
  unfolding answer_svid
  answer_svid-positive tok h = rw (h, answer_svid) refl

  answer_svid-accepted :
      (tok : Token) (out : List ℕ)
      → answer_svid lib tok ≡ ok out
      → (out ≡ []) × (is_svid lib.jose tok ≡ ok (true, []))
  unfolding answer_svid
  answer_svid-accepted tok out h =
      let (answer, checked, h1) =
        >>=-eq-ok (map_err svid_check_failed (is_svid lib.jose tok)) _ h in
      let (u, positive, h2) = >>=-eq-ok (guard answer.0 token_not_svid) _ h1 in
      let same : ◌≡◌ {A = Result InspectError (List ℕ)} (ok []) (ok out) = h2 in
      let checked' = map_err-eq-ok svid_check_failed (is_svid lib.jose tok) answer checked in
      (
        cc,
        is_svid-positive lib.jose tok answer checked'
            (guard-eq-ok answer.0 token_not_svid u positive),
      )

  -- With the flag for SVIDs, `Inspect` succeeds exactly for a file whose text parses to a token that has
  -- all that a JWT-SVID needs, and then with an empty text, whatever the output format is.
  pub inspect_svid_iff :
      (i : JwtInspector) (out : List ℕ)
      → i.is_svid ≡ true
      → (inspect lib i ≡ ok out) ↔ ((out ≡ []) × IsSvidFile i.filename)
  unfolding inspect load_token
  inspect_svid_iff i out svid = (forward, backward)
    where
      forward : inspect lib i ≡ ok out → (out ≡ []) × IsSvidFile i.filename
      forward h =
          let (tok, loaded, responded) = >>=-eq-ok (load_token lib i.filename) (respond lib i) h in
          let (u, set, h1) = >>=-eq-ok (guard (not (i.filename =ₛ "")) no_filename) _ loaded in
          let (text, read, parsed) = >>=-eq-ok (map_err not_read (lib.read_file i.filename)) _ h1 in
          let (empty, accepted) =
            answer_svid-accepted tok out (sym (respond-svid i tok svid) ∙ responded) in
          let (c, readable, conforms) = (is_svid_iff lib.jose tok).0 accepted in
          (
            empty,
            record {
              text = text;
              tok = tok;
              claims = c;
              named =
                  set_of_test i.filename (guard-eq-ok (not (i.filename =ₛ "")) no_filename u set);
              read = map_err-eq-ok not_read (lib.read_file i.filename) text read;
              parsed = map_err-eq-ok to_not_deserialized (lib.parse_signed text) tok parsed;
              readable = readable;
              conforms = conforms;
            },
          )

      backward : (out ≡ []) × IsSvidFile i.filename → inspect lib i ≡ ok out
      backward (empty, f) =
          let accepted = (is_svid_iff lib.jose f.tok).1 (f.claims, f.readable, f.conforms) in
          let loaded = load_token-eq i.filename f.text f.tok f.named f.read f.parsed in
          ap (λ r. r >>= respond lib i) loaded
          ∙ (respond-svid i f.tok svid ∙ (answer_svid-positive f.tok accepted ∙ ap ok (sym empty)))

-- The summary of a token without an expiry is that of one that expired at the zero time: after that
-- time, it reports `Token expired at` with the zero time.
pub expiry_text-absent :
    {M Z : Type 0} (jose : JoseLib) (lib : OutputLib M Z) (options : OutputOptions) (zone : Z)
    (now : ℤ)
    → pos 0 <ℤ now
    → expiry_text jose lib options zone now none
      ≡ field jose lib options "Token expired at" (lib.time_in zone (pos 0))
unfolding expiry_text
expiry_text-absent jose lib options zone now h =
    let past : ltb_ℤ (pos 0) now ≡ true = (ltb_ℤ_iff (pos 0) now).1 h in rw (past, expiry_text) refl
