-- ===== src/JwtSvid/Validation.antt =====
-- What a validated token has passed.
use spiffecli.Prelude.{
  ◌≡◌, ap, subst, ◌∙◌, true, not, Option, Option-cases, some, inl, inr, List, [], ◌∷◌, Result, ok,
  >>=-eq-ok, guard, guard-eq-ok, map_err, map_err-eq-ok, String, ◌=ₛ◌, =ₛ_iff, one_of, one_of_iff,
  In, arith, ◌≢◌,
}
use spiffecli.Prelude.Int.{ℤ}
use spiffecli.Cert.{SpiffeId, PublicKey}
use spiffecli.Jwt.{Header, Claims, Token, JoseLib}
use spiffecli.JwtInspect.{svid_signature_algorithms}
use spiffecli.JwtSvid.{
  ValidateError, unsupported_algorithm, missing_key_id, missing_subject, unreadable_claims, no_keys,
  unverified, to_unparsable, to_invalid_subject, pretty, ValidateLib, single_header, find_key,
  validate_token,
}

-- A token for an identity: its one header names an algorithm of JWT-SVIDs and a key of the identity's
-- trust domain, its signature is verified with that key, and its claims are valid.
pub record IsValidated (jose : JoseLib) (lib : ValidateLib) (now : ℤ) (token : String)
    (audience : List String) (id : SpiffeId) (claims_map : List (String × String)) : Type 0 where
  pub tok : Token
  pub header : Header
  pub claims : Claims
  pub bundle : String → Option PublicKey
  pub key : PublicKey
  pub parsed : jose.parse_signed token ≡ ok tok
  pub one_header : tok.headers ≡ header ∷ []
  pub algorithm : In header.algorithm svid_signature_algorithms
  pub key_named : header.key_id ≢ ""
  pub readable : tok.claims ≡ ok claims
  pub subject : jose.from_string claims.subject ≡ ok id
  pub known : lib.jwt_bundle id.trust_domain ≡ ok bundle
  pub found : bundle header.key_id ≡ some key
  pub verified : lib.verified_claims tok key ≡ ok claims_map
  pub valid : lib.validate claims audience now ≡ ok tt

pub set_of_test : (s : String) → not (s =ₛ "") ≡ true → s ≢ ""
set_of_test s h e = cc ((=ₛ_iff s "").1 e, h)

single_header-eq-ok : (hs : List Header) (h : Header) → single_header hs ≡ ok h → hs ≡ h ∷ []
unfolding single_header
single_header-eq-ok [] h e = cc
single_header-eq-ok (g ∷ []) h e = ground (arith, e)
single_header-eq-ok (g ∷ i ∷ hs) h e = cc

find_key-eq-ok :
    (key_id td : String) (bundle : String → Option PublicKey) (key : PublicKey)
    → find_key key_id td bundle ≡ ok key
    → bundle key_id ≡ some key
unfolding find_key
find_key-eq-ok key_id td bundle key e = elim (Option-cases (bundle key_id)) [
  | inl missing ↦ cc (rw (missing, find_key) at e)
  | inr (k, found) ↦
      let made : ◌≡◌ {A = Result ValidateError PublicKey} (ok k) (ok key) =
        rw (found, find_key) at e in
      let same : k ≡ key = ground (arith, made) in found ∙ ap some same
]

-- When `ValidateToken` succeeds, the token has one header, with an algorithm of JWT-SVIDs and a key ID;
-- the bundle of the trust domain of its subject has a key of that ID; the returned claims were
-- verified with this key, and the token's claims are valid for the audience at this time; the
-- returned ID is the subject's.
pub validate_token-IsValidated :
    (jose : JoseLib) (lib : ValidateLib) (now : ℤ) (token : String) (audience : List String)
    (id : SpiffeId) (claims_map : List (String × String))
    → validate_token jose lib now token audience ≡ ok (id, claims_map)
    → IsValidated jose lib now token audience id claims_map
unfolding validate_token
validate_token-IsValidated jose lib now token audience id claims_map h =
    let (tok, parsed, h1) = >>=-eq-ok (map_err to_unparsable (jose.parse_signed token)) _ h in
    let (header, single, h2) = >>=-eq-ok (single_header tok.headers) _ h1 in
    let (u1, algorithm, h3) =
      >>=-eq-ok
        (guard (one_of header.algorithm svid_signature_algorithms)
          (unsupported_algorithm header.algorithm))
        _ h2 in
    let (u2, named, h4) = >>=-eq-ok (guard (not (header.key_id =ₛ "")) missing_key_id) _ h3 in
    let (claims, readable, h5) = >>=-eq-ok (map_err unreadable_claims tok.claims) _ h4 in
    let (u3, _, h6) = >>=-eq-ok (guard (not (claims.subject =ₛ "")) missing_subject) _ h5 in
    let (sid, subject, h7) =
      >>=-eq-ok (map_err to_invalid_subject (jose.from_string claims.subject)) _ h6 in
    let (bundle, known, h8) = >>=-eq-ok (map_err no_keys (lib.jwt_bundle sid.trust_domain)) _ h7 in
    let (key, found, h9) = >>=-eq-ok (find_key header.key_id sid.trust_domain bundle) _ h8 in
    let (cm, verified, h10) = >>=-eq-ok (map_err unverified (lib.verified_claims tok key)) _ h9 in
    let (u4, valid, h11) =
      >>=-eq-ok (map_err (pretty audience) (lib.validate claims audience now)) _ h10 in
    let made : ◌≡◌ {A = Result ValidateError (SpiffeId × List (String × String))} (ok (sid, cm))
        (ok (id, claims_map)) =
      h11 in
    let same_id : sid ≡ id = ground (arith, made) in
    let same_map : cm ≡ claims_map = ground (arith, made) in
    subst (λ m. IsValidated jose lib now token audience id m) same_map
      (subst (λ i. IsValidated jose lib now token audience i cm) same_id
        (record {
          tok = tok;
          header = header;
          claims = claims;
          bundle = bundle;
          key = key;
          parsed = map_err-eq-ok to_unparsable (jose.parse_signed token) tok parsed;
          one_header = single_header-eq-ok tok.headers header single;
          algorithm = (one_of_iff header.algorithm svid_signature_algorithms).0 (
              guard-eq-ok (one_of header.algorithm svid_signature_algorithms)
                (unsupported_algorithm header.algorithm) u1 algorithm);
          key_named =
              set_of_test header.key_id
                (guard-eq-ok (not (header.key_id =ₛ "")) missing_key_id u2 named);
          readable = map_err-eq-ok unreadable_claims tok.claims claims readable;
          subject = map_err-eq-ok to_invalid_subject (jose.from_string claims.subject) sid subject;
          known = map_err-eq-ok no_keys (lib.jwt_bundle sid.trust_domain) bundle known;
          found = find_key-eq-ok header.key_id sid.trust_domain bundle key found;
          verified = map_err-eq-ok unverified (lib.verified_claims tok key) cm verified;
          valid = map_err-eq-ok (pretty audience) (lib.validate claims audience now) tt valid;
        }))
