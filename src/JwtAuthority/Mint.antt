-- ===== src/JwtAuthority/Mint.antt =====
-- A minted JWT-SVID passes the inspector's check and stays within its authority's lifetime.
use spiffecli.Prelude.{
  =ₛ_iff, ◌≢◌, List, All, ◌≡◌, inl, inr, refl, true, not, Option, none, some, [], ◌∷◌, Result, ok,
  >>=-eq-ok, map_err, guard, map_err-eq-ok, guard-eq-ok, String, arith, Bool-cases, ◌=ₛ◌, In,
  is_empty, subst, sym,
}
use spiffecli.Prelude.Int.{
  ℤ, pos, ◌+ℤ◌, ◌≤ℤ◌, ◌<ℤ◌, ltb_ℤ, ltb_ℤ_iff, leb_ℤ, eqb_ℤ, int_laws, +ℤ_parts,
}
use spiffecli.Cert.{SpiffeId}
use spiffecli.Cryptoutil.{jose_alg_from_public_key}
use spiffecli.Cryptoutil.Keys.{jose_alg_names}
use spiffecli.X509Authority.{Signer, second, is_zero_id}
use spiffecli.Jwt.{text, Claims, Token, JwtSigner, JoseLib}
use spiffecli.JwtInspect.{is_svid, svid_signature_algorithms}
use spiffecli.JwtInspect.Conformance.{is_svid_iff}
use spiffecli.JwtAuthority.{
  JwtAuthorityError, id_unset, audience_unset, audience_empty_value, bad_ttl, lib_error,
  no_algorithm, expires_at_required, SvidParams, Authority, has_empty_audience, determine_expiry,
  with_key, new_authority, svid_claims, mint_jwt_svid,
}

-- What is documented of the libraries: `NewSigner` keeps its key and algorithm, a signed token parses
-- to one header with the signer's algorithm and key ID and the type JWT and to the claims that were
-- signed, a numeric date is the time cut to its second, and the text of an ID that `FromString` has
-- parsed is the parsed one.
pub record IsDocumented (lib : JoseLib) : Type 0 where
  pub signer : (s t : JwtSigner) → lib.new_signer s ≡ ok t → t ≡ s
  pub parse_sign :
      (s : JwtSigner) (c : Claims) (token : String)
      → lib.sign s c ≡ ok token
      → lib.parse_signed token
        ≡ ok (record {
          headers =
              record { algorithm = s.algorithm; key_id = s.key_id; extra_typ = some (text "JWT") }
              ∷ [];
          claims = ok c;
        })
  pub date_le : (t : ℤ) → lib.numeric_date t ≤ℤ t
  pub date_lt : (t : ℤ) → t <ℤ lib.numeric_date t +ℤ pos second
  pub named : (s : String) (id : SpiffeId) → lib.from_string s ≡ ok id → id.text ≡ s

-- So such an ID parses back from its text.
parsed_text :
    (lib : JoseLib) (doc : IsDocumented lib) (s : String) (id : SpiffeId)
    → lib.from_string s ≡ ok id
    → lib.from_string id.text ≡ ok id
parsed_text lib doc s id valid =
    subst (λ t. lib.from_string t ≡ ok id) (sym (doc.named s id valid)) valid

-- The expiry lies after now, and neither after the TTL nor after the authority's end.
determine_expiry_bounds :
    (now ttl cap expiry : ℤ)
    → pos 0 <ℤ ttl
    → determine_expiry now ttl cap ≡ ok expiry
    → (now <ℤ expiry) × (expiry ≤ℤ cap) × (expiry ≤ℤ now +ℤ ttl)
unfolding determine_expiry
determine_expiry_bounds now ttl cap expiry h e = elim (Bool-cases (ltb_ℤ now cap)) [
  | inr dead ↦ cc (rw dead at e)
  | inl alive ↦ elim (Bool-cases (ltb_ℤ cap (now +ℤ ttl))) [
    | inl late ↦
        let made : ◌≡◌ {A = Result JwtAuthorityError ℤ} (ok cap) (ok expiry) =
          rw (alive, late) at e in
        let same : cap ≡ expiry = cc in
        subst (λ x. (now <ℤ x) × (x ≤ℤ cap) × (x ≤ℤ now +ℤ ttl)) same
          (
            (ltb_ℤ_iff now cap).0 alive,
            omega arith,
            omega (arith, (ltb_ℤ_iff cap (now +ℤ ttl)).0 late),
          )
    | inr early ↦
        let made : ◌≡◌ {A = Result JwtAuthorityError ℤ} (ok (now +ℤ ttl)) (ok expiry) =
          rw (alive, early) at e in
        let same : now +ℤ ttl ≡ expiry = cc in
        let before : now +ℤ ttl ≤ℤ cap = ground arith in
        subst (λ x. (now <ℤ x) × (x ≤ℤ cap) × (x ≤ℤ now +ℤ ttl)) same
          (omega int_laws, before, omega arith)
  ]
]

-- An authority made by `New` signs with an algorithm of the JWT-SVID standard.
pub new_authority-supported :
    (lib : JoseLib) (doc : IsDocumented lib) (key_id : String) (key : Option Signer)
    (issuer : String) (expires_at : ℤ) (a : Authority)
    → new_authority lib key_id key issuer expires_at ≡ ok a
    → In a.signer.algorithm svid_signature_algorithms
      × (a.expires_at ≡ expires_at)
      × (a.signer.key_id ≡ key_id)
unfolding new_authority with_key
new_authority-supported lib doc key_id none issuer expires_at a h =
    elim (Bool-cases (key_id =ₛ "")) [ inl unset ↦ cc (rw unset at h) | inr set ↦ cc (rw set at h) ]
new_authority-supported lib doc key_id (some key) issuer expires_at a h =
    elim (Bool-cases (key_id =ₛ "")) [
      | inl unset ↦ cc (rw unset at h)
      | inr set ↦
          let h0 : with_key lib key_id key issuer expires_at ≡ ok a = rw set at h in
          let (u, _, h1) =
            >>=-eq-ok (guard (not (eqb_ℤ expires_at (pos 0))) expires_at_required) _ h0 in
          let (alg, found, h2) =
            >>=-eq-ok (map_err no_algorithm (jose_alg_from_public_key key.public)) _ h1 in
          let config : JwtSigner = record { algorithm = alg; key = key; key_id = key_id } in
          let (signer, made, h3) = >>=-eq-ok (map_err lib_error (lib.new_signer config)) _ h2 in
          let kept =
            doc.signer config signer
              (map_err-eq-ok lib_error (lib.new_signer config) signer made) in
          let built : ◌≡◌ {A = Result JwtAuthorityError Authority}
              (ok (record { signer = signer; issuer = issuer; expires_at = expires_at })) (ok a) =
            h3 in
          let alg_ok = map_err-eq-ok no_algorithm (jose_alg_from_public_key key.public) alg found in
          let same_alg : alg ≡ a.signer.algorithm = ground (arith, kept, built) in
          (
            subst (λ x. In x svid_signature_algorithms) same_alg (supported key alg alg_ok),
            ground (arith, built),
            ground (arith, kept, built),
          )
    ]
  where
    supported :
        (k : Signer) (alg : String)
        → jose_alg_from_public_key k.public ≡ ok alg
        → In alg svid_signature_algorithms
    supported k alg e = elim (jose_alg_names k.public alg e) [
      | inl rs ↦ inl rs
      | inr (inl es) ↦ inr (inr (inr (inl es)))
      | inr (inr es) ↦ inr (inr (inr (inr (inl es))))
    ]

has_empty_audience-All :
    (vs : List String) → not (has_empty_audience vs) ≡ true → All (λ v. v ≢ "") vs
unfolding has_empty_audience
has_empty_audience-All [] h = tt
has_empty_audience-All (v ∷ vs) h = elim (Bool-cases (v =ₛ "")) [
  | inl empty ↦ cc (rw (empty, has_empty_audience) at h)
  | inr full ↦ (
    λ e. cc ((=ₛ_iff v "").1 e, full),
    has_empty_audience-All vs (rw (full, has_empty_audience) at h),
  )
]

-- What a minted token promises, as the inspector and a verifier read it.
pub record IsMinted (lib : JoseLib) (a : Authority) (now : ℤ) (params : SvidParams) (token : String)
    : Type 0 where
  pub parsed : Token
  pub claims : Claims
  pub expiry : ℤ
  pub parses : lib.parse_signed token ≡ ok parsed
  pub readable : parsed.claims ≡ ok claims
  pub accepted : is_svid lib parsed ≡ ok (true, [])
  pub subject : lib.from_string claims.subject ≡ ok params.spiffe_id
  pub audience : claims.audience ≡ params.audience
  pub no_empty_audience : All (λ v. v ≢ "") claims.audience
  pub expires : claims.expiry ≡ some expiry
  pub alive : now <ℤ expiry +ℤ pos second
  pub capped : expiry ≤ℤ a.expires_at
  pub within_ttl : expiry ≤ℤ now +ℤ params.ttl

-- The promises from the facts of a successful call.
Minted-IsMinted :
    (lib : JoseLib) (doc : IsDocumented lib) (a : Authority) (now : ℤ) (params : SvidParams)
    (token : String) (expiry : ℤ) (jti origin : String)
    → lib.from_string origin ≡ ok params.spiffe_id
    → In a.signer.algorithm svid_signature_algorithms
    → pos second ≤ℤ now
    → not (is_empty params.audience) ≡ true
    → not (has_empty_audience params.audience) ≡ true
    → not (leb_ℤ params.ttl (pos 0)) ≡ true
    → determine_expiry now params.ttl a.expires_at ≡ ok expiry
    → lib.sign a.signer (svid_claims lib a params now expiry jti) ≡ ok token
    → IsMinted lib a now params token
unfolding svid_claims
Minted-IsMinted lib doc a now params token expiry jti origin valid alg late listed full positive
      chosen signed =
    let c = svid_claims lib a params now expiry jti in
    let (future, capped, within) =
      determine_expiry_bounds now params.ttl a.expires_at expiry (ground (arith, positive))
        chosen in
    let le = doc.date_le expiry in
    let lt = doc.date_lt expiry in
    let parsed_id = parsed_text lib doc origin params.spiffe_id valid in
    record {
      parsed = record {
        headers =
            record {
              algorithm = a.signer.algorithm;
              key_id = a.signer.key_id;
              extra_typ = some (text "JWT");
            }
            ∷ [];
        claims = ok c;
      };
      claims = c;
      expiry = lib.numeric_date expiry;
      parses = doc.parse_sign a.signer c token signed;
      readable = refl;
      accepted = (is_svid_iff lib _).1 (
        c,
        refl,
        record {
          supported = inl alg;
          typed = inl (inr (inl refl));
          id = params.spiffe_id;
          named = parsed_id;
          audience = λ e. cc (rw e at listed);
          expiry = lib.numeric_date expiry;
          expires = refl;
          expiry_set = λ e. absurd (past lib expiry now e late future lt);
        },
      );
      subject = parsed_id;
      audience = refl;
      no_empty_audience = has_empty_audience-All params.audience full;
      expires = refl;
      alive = omega arith;
      capped = omega arith;
      within_ttl = omega arith;
    }
  where
    past :
        (l : JoseLib) (e n : ℤ)
        → l.numeric_date e ≡ pos 0
        → pos second ≤ℤ n
        → n <ℤ e
        → e <ℤ l.numeric_date e +ℤ pos second
        → ⊥
    past l e n z p q r =
        let r' = subst (λ x. e <ℤ x +ℤ pos second) z r in
        let sum = +ℤ_parts (pos 0) (pos second) in omega arith

-- A token that `MintJWTSVID` returns, from an authority that `New` made, passes the inspector's
-- JWT-SVID check, where `FromString` has parsed the requested ID; its subject parses to this ID,
-- its audience is the requested one, without empty values, and it expires after now (to the
-- second), at the latest with the TTL and with the authority. The clock stands at least one second
-- after the zero time.
pub mint_jwt_svid-IsMinted :
    (lib : JoseLib) (doc : IsDocumented lib) (key_id : String) (key : Option Signer)
    (issuer : String) (expires_at : ℤ) (a : Authority) (now : ℤ) (random : Result String String)
    (params : SvidParams) (token origin : String)
    → lib.from_string origin ≡ ok params.spiffe_id
    → new_authority lib key_id key issuer expires_at ≡ ok a
    → pos second ≤ℤ now
    → mint_jwt_svid lib a now random params ≡ ok token
    → IsMinted lib a now params token
unfolding mint_jwt_svid
mint_jwt_svid-IsMinted lib doc key_id key issuer expires_at a now random params token origin valid
      made late h0 =
    let (u1, _, h1) = >>=-eq-ok (guard (not (is_zero_id params.spiffe_id)) id_unset) _ h0 in
    let (u2, some_audience, h2) =
      >>=-eq-ok (guard (not (is_empty params.audience)) audience_unset) _ h1 in
    let (u3, full, h3) =
      >>=-eq-ok (guard (not (has_empty_audience params.audience)) audience_empty_value) _ h2 in
    let (u4, positive, h4) = >>=-eq-ok (guard (not (leb_ℤ params.ttl (pos 0))) bad_ttl) _ h3 in
    let (expiry, chosen, h5) = >>=-eq-ok (determine_expiry now params.ttl a.expires_at) _ h4 in
    let (jti, _, h6) = >>=-eq-ok (map_err lib_error random) _ h5 in
    let c = svid_claims lib a params now expiry jti in
    let signed = map_err-eq-ok lib_error (lib.sign a.signer c) token h6 in
    let (alg, _, _) = new_authority-supported lib doc key_id key issuer expires_at a made in
    Minted-IsMinted lib doc a now params token expiry jti origin valid alg late
      (guard-eq-ok (not (is_empty params.audience)) audience_unset u2 some_audience)
      (guard-eq-ok (not (has_empty_audience params.audience)) audience_empty_value u3 full)
      (guard-eq-ok (not (leb_ℤ params.ttl (pos 0))) bad_ttl u4 positive) chosen signed
