-- ===== src/WlApi/TrustDomain/Serving.antt =====
-- A JWT-SVID of a trust domain and the bundle that the trust domain serves fit together.
use spiffecli.Prelude.{
  ◌≡◌, ◌≢◌, ◌∙◌, refl, sym, subst, inl, inr, false, not, Bool-cases, Option, Option-cases, some,
  List, [], ◌∷◌, Result, ok, >>=-eq-ok, guard, guard-eq-ok, map_err, map_err-eq-ok, String, ◌=ₛ◌,
  =ₛ_iff, =ₛ_refl, lookup_text, one_of_iff, In, All, Bytes, is_empty, arith,
}
use spiffecli.Prelude.Int.{ℤ, pos, ◌+ℤ◌, ◌≤ℤ◌, ltb_ℤ, leb_ℤ, eqb_ℤ, int_laws}
use spiffecli.Cert.{SpiffeId, PublicKey}
use spiffecli.Cryptoutil.{jose_alg_from_public_key}
use spiffecli.X509Authority.{Signer, second, is_zero_id}
use spiffecli.Jwt.{text, Claims, Token, JwtSigner, JoseLib}
use spiffecli.JwtInspect.{svid_signature_algorithms}
use spiffecli.JwtAuthority
use spiffecli.JwtAuthority.{
  JwtAuthorityError, id_unset, audience_unset, audience_empty_value, bad_ttl, lib_error,
  no_algorithm, expires_at_required, SvidParams, has_empty_audience, determine_expiry, with_key,
  svid_claims, mint_jwt_svid,
}
use spiffecli.JwtAuthority.Mint.{IsDocumented, new_authority-supported}
use spiffecli.JwtSvid.{ValidateLib, validate_token, single_header, find_key}
use spiffecli.JwtSvid.Validation.{set_of_test}
use spiffecli.WlApi.TrustDomain.{JwtAuthorityInfo, TrustDomain, jwt_failed, last, td_mint_jwt_svid}
use spiffecli.WlApi.TrustDomain.Bundles.{jwt_keys, jwt_bundles}

-- A later authority replaces an earlier one of the same key ID: the newest one is always found.
pub jwt_keys-newest :
    (as' : List JwtAuthorityInfo) (info : JwtAuthorityInfo) (m : List (String × PublicKey))
    → last as' ≡ some info
    → lookup_text info.key_id (jwt_keys as' m) ≡ some info.pk.public
unfolding jwt_keys
jwt_keys-newest [] info m h = cc
jwt_keys-newest (a ∷ []) info m h =
    let same : a ≡ info = ground (arith, h) in
    subst (λ i. lookup_text i.key_id ((a.key_id, a.pk.public) ∷ m) ≡ some i.pk.public) same
      (rw (=ₛ_refl a.key_id) refl)
jwt_keys-newest (a ∷ b ∷ as') info m h =
    jwt_keys-newest (b ∷ as') info ((a.key_id, a.pk.public) ∷ m) h

-- What is documented of go-jose: a signature verifies with the public key of its signer, and claims
-- are valid from their issuance to their expiry where they list every expected audience.
pub record IsVerifying (jose : JoseLib) (lib : ValidateLib) : Type 0 where
  pub verified :
      (s : JwtSigner) (c : Claims) (token : String) (tok : Token)
      → jose.sign s c ≡ ok token
      → jose.parse_signed token ≡ ok tok
      → (m : List (String × String)) × (lib.verified_claims tok s.key.public ≡ ok m)
  pub valid :
      (c : Claims) (expected : List String) (t expiry issued : ℤ)
      → c.expiry ≡ some expiry
      → c.issued_at ≡ some issued
      → issued ≤ℤ t
      → t ≤ℤ expiry
      → expected ≢ []
      → All (λ a. In a c.audience) expected
      → lib.validate c expected t ≡ ok tt

-- What is documented of a JWT bundle: the bytes that `Marshal` writes parse to the same keys.
pub record IsCodec (marshal : String → List (String × PublicKey) → Result String Bytes)
    (parse : String → Bytes → Result String (String → Option PublicKey)) : Type 0 where
  pub reads :
      (name : String) (keys : List (String × PublicKey)) (bytes : Bytes)
      → marshal name keys ≡ ok bytes
      → (find : String → Option PublicKey) × (parse name bytes ≡ ok find)
        × ((k : String) → find k ≡ lookup_text k keys)

determine_expiry-late :
    (now ttl cap expiry t : ℤ)
    → determine_expiry now ttl cap ≡ ok expiry
    → t ≤ℤ now +ℤ ttl
    → t ≤ℤ cap
    → t ≤ℤ expiry
unfolding determine_expiry
determine_expiry-late now ttl cap expiry t e h k = elim (Bool-cases (ltb_ℤ now cap)) [
  | inr dead ↦ cc (rw dead at e)
  | inl alive ↦ elim (Bool-cases (ltb_ℤ cap (now +ℤ ttl))) [
    | inl late ↦
        let made : ◌≡◌ {A = Result JwtAuthorityError ℤ} (ok cap) (ok expiry) =
          rw (alive, late) at e in
        let same : cap ≡ expiry = cc in subst (λ x. t ≤ℤ x) same k
    | inr early ↦
        let made : ◌≡◌ {A = Result JwtAuthorityError ℤ} (ok (now +ℤ ttl)) (ok expiry) =
          rw (alive, early) at e in
        let same : now +ℤ ttl ≡ expiry = cc in subst (λ x. t ≤ℤ x) same h
  ]
]

-- An authority signs with the given key, and its key ID is not empty.
new_authority-keyed :
    (lib : JoseLib) (doc : IsDocumented lib) (key_id : String) (key : Signer) (issuer : String)
    (expires_at : ℤ) (a : JwtAuthority.Authority)
    → JwtAuthority.new_authority lib key_id (some key) issuer expires_at ≡ ok a
    → (a.signer.key ≡ key) × (key_id ≢ "")
unfolding JwtAuthority.new_authority with_key
new_authority-keyed lib doc key_id key issuer expires_at a h = elim (Bool-cases (key_id =ₛ "")) [
  | inl unset ↦ cc (rw unset at h)
  | inr set ↦
      let h0 : with_key lib key_id key issuer expires_at ≡ ok a = rw set at h in
      let (u, _, h1) =
        >>=-eq-ok (guard (not (eqb_ℤ expires_at (pos 0))) expires_at_required) _ h0 in
      let (alg, found, h2) =
        >>=-eq-ok (map_err no_algorithm (jose_alg_from_public_key key.public)) _ h1 in
      let config : JwtSigner = record { algorithm = alg; key = key; key_id = key_id } in
      let (signer, made, h3) = >>=-eq-ok (map_err lib_error (lib.new_signer config)) _ h2 in
      let kept =
        doc.signer config signer (map_err-eq-ok lib_error (lib.new_signer config) signer made) in
      let built : ◌≡◌ {A = Result JwtAuthorityError JwtAuthority.Authority}
          (ok (record { signer = signer; issuer = issuer; expires_at = expires_at })) (ok a) =
        h3 in
      (ground (arith, kept, built), set_of_test key_id (rw set refl))
]

-- The facts of a successful `MintJWTSVID`.
record IsSigning (lib : JoseLib) (td : TrustDomain) (now : ℤ) (id : SpiffeId)
    (audience : List String) (ttl : ℤ) (token : String) : Type 0 where
  info : JwtAuthorityInfo
  a : JwtAuthority.Authority
  expiry : ℤ
  jti : String
  newest : last td.jwt_authorities ≡ some info
  algorithm : In a.signer.algorithm svid_signature_algorithms
  key : a.signer.key ≡ info.pk
  key_id : a.signer.key_id ≡ info.key_id
  key_named : info.key_id ≢ ""
  id_named : id.text ≢ ""
  chosen : determine_expiry now ttl (now +ℤ td.config.jwt_authority_ttl) ≡ ok expiry
  signed :
      lib.sign a.signer (
        svid_claims lib a
          (record { spiffe_id = id; audience = audience; ttl = ttl })
          now
          expiry
          jti)
      ≡ ok token

mint_facts :
    (lib : JoseLib) (a : JwtAuthority.Authority) (now : ℤ) (random : Result String String)
    (params : SvidParams) (token : String)
    → mint_jwt_svid lib a now random params ≡ ok token
    → (params.spiffe_id.text ≢ "")
      × (expiry : ℤ) × (jti : String) × (determine_expiry now params.ttl a.expires_at ≡ ok expiry)
      × (lib.sign a.signer (svid_claims lib a params now expiry jti) ≡ ok token)
unfolding mint_jwt_svid
mint_facts lib a now random params token h0 =
    let (u1, zero_id, h1) = >>=-eq-ok (guard (not (is_zero_id params.spiffe_id)) id_unset) _ h0 in
    let (u2, _, h2) = >>=-eq-ok (guard (not (is_empty params.audience)) audience_unset) _ h1 in
    let (u3, _, h3) =
      >>=-eq-ok (guard (not (has_empty_audience params.audience)) audience_empty_value) _ h2 in
    let (u4, _, h4) = >>=-eq-ok (guard (not (leb_ℤ params.ttl (pos 0))) bad_ttl) _ h3 in
    let (expiry, chosen, h5) = >>=-eq-ok (determine_expiry now params.ttl a.expires_at) _ h4 in
    let (jti, _, h6) = >>=-eq-ok (map_err lib_error random) _ h5 in
    (
      set_of_test params.spiffe_id.text
          (guard-eq-ok (not (is_zero_id params.spiffe_id)) id_unset u1 zero_id),
      expiry,
      jti,
      chosen,
      map_err-eq-ok lib_error (lib.sign a.signer (svid_claims lib a params now expiry jti)) token
          h6,
    )

td_mint_jwt_svid-IsSigning :
    (lib : JoseLib) (doc : IsDocumented lib) (td : TrustDomain) (now : ℤ)
    (random : Result String String) (id : SpiffeId) (audience : List String) (ttl : ℤ)
    (token : String)
    → td_mint_jwt_svid lib td now random id audience ttl ≡ ok token
    → IsSigning lib td now id audience ttl token
unfolding td_mint_jwt_svid
td_mint_jwt_svid-IsSigning lib doc td now random id audience ttl token h =
    elim (Option-cases (last td.jwt_authorities)) [
      | inl nothing ↦ cc (rw (nothing, td_mint_jwt_svid) at h)
      | inr (info, newest) ↦
          let cap = now +ℤ td.config.jwt_authority_ttl in
          let params : SvidParams = record { spiffe_id = id; audience = audience; ttl = ttl } in
          let h1 = rw (newest, td_mint_jwt_svid) at h in
          let (a, made, h2) =
            >>=-eq-ok
              (map_err jwt_failed
                (JwtAuthority.new_authority lib info.key_id (some info.pk) info.issuer cap))
              _ h1 in
          let made' =
            map_err-eq-ok jwt_failed
              (JwtAuthority.new_authority lib info.key_id (some info.pk) info.issuer cap) a made in
          let (supported, capped, named) =
            new_authority-supported lib doc info.key_id (some info.pk) info.issuer cap a made' in
          let (keyed, set) =
            new_authority-keyed lib doc info.key_id info.pk info.issuer cap a made' in
          let minted = map_err-eq-ok jwt_failed (mint_jwt_svid lib a now random params) token h2 in
          let (id_set, expiry, jti, chosen, signed) =
            mint_facts lib a now random params token minted in
          record {
            info = info;
            a = a;
            expiry = expiry;
            jti = jti;
            newest = newest;
            algorithm = supported;
            key = keyed;
            key_id = named;
            key_named = set;
            id_named = id_set;
            chosen = subst (λ c. determine_expiry now ttl c ≡ ok expiry) capped chosen;
            signed = signed;
          }
    ]

set_test : (s : String) → s ≢ "" → (s =ₛ "") ≡ false
set_test s h = elim (Bool-cases (s =ₛ "")) [ inl e ↦ absurd (h ((=ₛ_iff s "").0 e)) | inr e ↦ e ]

module _ (jose : JoseLib) (lib : ValidateLib) (ver : IsVerifying jose lib) where
  -- A token of one header whose key is found, with claims that are in time.
  accepts :
      (s : JwtSigner) (c : Claims) (token : String) (expected : List String) (t : ℤ)
      (sid : SpiffeId) (find : String → Option PublicKey)
      → jose.sign s c ≡ ok token
      → jose.parse_signed token
        ≡ ok (record {
          headers =
              record { algorithm = s.algorithm; key_id = s.key_id; extra_typ = some (text "JWT") }
              ∷ [];
          claims = ok c;
        })
      → In s.algorithm svid_signature_algorithms
      → s.key_id ≢ ""
      → c.subject ≢ ""
      → jose.from_string c.subject ≡ ok sid
      → lib.jwt_bundle sid.trust_domain ≡ ok find
      → find s.key_id ≡ some s.key.public
      → lib.validate c expected t ≡ ok tt
      → (m : List (String × String)) × (validate_token jose lib t token expected ≡ ok (sid, m))
  unfolding validate_token single_header find_key
  accepts s c token expected t sid find signed parsed alg kid subject named known found valid =
      let (m, verified) = ver.verified s c token _ signed parsed in
      let alg' = (one_of_iff s.algorithm svid_signature_algorithms).1 alg in
      (
        m,
        rw
            (
              parsed,
              alg',
              set_test s.key_id kid,
              set_test c.subject subject,
              named,
              known,
              found,
              verified,
              valid,
              validate_token,
              single_header,
              find_key,
            )
            refl,
      )

  -- A JWT-SVID that a trust domain mints is accepted by `ValidateToken` against the JWT bundle that the
  -- trust domain serves, and gives the ID that the requested one parses to: from the minting until one
  -- second before the TTL or the TTL of JWT authorities is over, for any non-empty list of audiences
  -- among the requested ones. It holds after any rotations, since the newest authority's key is in the
  -- bundle under its key ID even where an older one had the same ID.
  pub td_mint_jwt_svid-validates :
      (doc : IsDocumented jose) (id_string : String → String)
      (marshal : String → List (String × PublicKey) → Result String Bytes)
      (parse : String → Bytes → Result String (String → Option PublicKey))
      (codec : IsCodec marshal parse) (td : TrustDomain) (now later : ℤ)
      (random : Result String String) (id sid : SpiffeId) (audience expected : List String)
      (ttl : ℤ) (token entry : String) (bytes : Bytes)
      → td_mint_jwt_svid jose td now random id audience ttl ≡ ok token
      → jwt_bundles id_string marshal td ≡ ok (entry, bytes)
      → jose.from_string id.text ≡ ok sid
      → lib.jwt_bundle sid.trust_domain ≡ parse td.config.name bytes
      → now ≤ℤ later
      → later +ℤ pos second ≤ℤ now +ℤ ttl
      → later +ℤ pos second ≤ℤ now +ℤ td.config.jwt_authority_ttl
      → expected ≢ []
      → All (λ a. In a audience) expected
      → (m : List (String × String)) × (validate_token jose lib later token expected ≡ ok (sid, m))
  unfolding svid_claims jwt_bundles
  td_mint_jwt_svid-validates doc id_string marshal parse codec td now later random id sid audience
        expected ttl token entry bytes minted bundled named served after in_ttl in_authority
        some_expected listed =
      let f = td_mint_jwt_svid-IsSigning jose doc td now random id audience ttl token minted in
      let params : SvidParams = record { spiffe_id = id; audience = audience; ttl = ttl } in
      let c = svid_claims jose f.a params now f.expiry f.jti in
      let keys = jwt_keys td.jwt_authorities [] in
      let (written, marshaled, same) = >>=-eq-ok (marshal td.config.name keys) _ bundled in
      let bytes_eq : written ≡ bytes = ground (arith, same) in
      let marshaled' = subst (λ b. marshal td.config.name keys ≡ ok b) bytes_eq marshaled in
      let (find, parsed, finds) = codec.reads td.config.name keys bytes marshaled' in
      let in_time =
        determine_expiry-late now ttl (now +ℤ td.config.jwt_authority_ttl) f.expiry
          (later +ℤ pos second) f.chosen in_ttl in_authority in
      let date_le = doc.date_le now in
      let date_lt = doc.date_lt f.expiry in
      let valid =
        ver.valid c expected later (jose.numeric_date f.expiry) (jose.numeric_date now) refl refl
          (omega arith) (omega int_laws) some_expected listed in
      let newest = jwt_keys-newest td.jwt_authorities f.info [] f.newest in
      let found : find f.a.signer.key_id ≡ some f.a.signer.key.public =
        subst (λ k. find k ≡ some f.a.signer.key.public) (sym f.key_id)
          (subst (λ k. find f.info.key_id ≡ some k.public) (sym f.key)
            (finds f.info.key_id ∙ newest)) in
      accepts f.a.signer c token expected later sid find f.signed
        (doc.parse_sign f.a.signer c token f.signed) f.algorithm
        (subst (λ k. k ≢ "") (sym f.key_id) f.key_named) f.id_named named (served ∙ parsed) found
        valid
