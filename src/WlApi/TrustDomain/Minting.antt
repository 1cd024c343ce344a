-- ===== src/WlApi/TrustDomain/Minting.antt =====
-- Minting by a trust domain: the newest authority signs, and its certificate is the bundle.
use spiffecli.Prelude.{
  true, ℕ, ◌≡◌, refl, subst, List, [], ◌∷◌, ◌++◌, Option, Option-cases, some, inl, inr, Result, ok,
  >>=-eq-ok, map_err, map_err-eq-ok, String, In, All-In, arith,
}
use spiffecli.Prelude.Int.{ℤ}
use spiffecli.Cert.{SpiffeId, PublicKey, Uri, Cert, X509Lib}
use spiffecli.Jwt.{JoseLib}
use spiffecli.X509Authority.{CaLib, SvidParams, Authority, new_authority, mint_x509_svid}
use spiffecli.X509Authority.Mint.{
  IsDocumented, IsMinted, mint_x509_svid-IsMinted, mint_x509_svid-signed, mint_x509_svid-one,
}
use spiffecli.WlApi.Config.{TrustDomainConfig}
use spiffecli.WlApi.TrustDomain.{
  X509AuthorityInfo, JwtAuthorityInfo, TrustDomain, TdError, x509_failed, last, td_mint_x509_svid,
  td_mint_jwt_svid,
}
use spiffecli.WlApi.TrustDomain.Rotation.{
  IsRoot, IsRoot-CanIssue, Reachable, Reachable-IsWellFormed, last-append,
}

In-last : {A : Type 0} (xs : List A) (x : A) → last xs ≡ some x → In x xs
In-last [] x h = cc
In-last (y ∷ []) x h = inl cc
In-last (y ∷ z ∷ xs) x h = inr (In-last (z ∷ xs) x h)

-- The SVID of a request, with the authority that signed it.
pub record IsIssued (lib : X509Lib) (td : TrustDomain) (now : ℤ) (params : SvidParams) (cert : Cert)
    (bundle : List Cert) : Type 0 where
  pub info : X509AuthorityInfo
  pub newest : last td.x509_authorities ≡ some info
  pub bundle_of : bundle ≡ info.cert ∷ []
  pub minted : IsMinted lib (record { cert = info.cert; key = info.pk }) now params cert

module _ (lib : X509Lib) (ca : CaLib) (doc : IsDocumented lib ca) where
  pub td_mint_x509_svid-IsIssued :
      (td : TrustDomain) (now : ℤ) (random : Result String ℕ) (id : SpiffeId)
      (public_key : Option PublicKey) (ttl : ℤ) (cert : Cert) (bundle : List Cert) (origin : Uri)
      → lib.from_uri origin ≡ ok id
      → td_mint_x509_svid ca td now random id public_key ttl ≡ ok (cert, bundle)
      → IsIssued lib td now
          (record { spiffe_id = id; public_key = public_key; ttl = ttl })
          cert
          bundle
  unfolding td_mint_x509_svid new_authority
  td_mint_x509_svid-IsIssued td now random id public_key ttl cert bundle origin valid h =
      elim (Option-cases (last td.x509_authorities)) [
        | inl nothing ↦ cc (rw (nothing, td_mint_x509_svid) at h)
        | inr (info, newest) ↦
            let params : SvidParams = record {
              spiffe_id = id;
              public_key = public_key;
              ttl = ttl;
            } in
            let authority : Authority = record { cert = info.cert; key = info.pk } in
            let h1 = rw (newest, td_mint_x509_svid) at h in
            let (certs, made, h2) =
              >>=-eq-ok (map_err x509_failed (mint_x509_svid ca authority now random params)) _
                h1 in
            let made' =
              map_err-eq-ok x509_failed (mint_x509_svid ca authority now random params) certs
                made in
            let (c, one, minted) =
              mint_x509_svid-IsMinted lib ca doc authority now random params certs origin valid
                made' in
            let h3 : ◌≡◌ {A = Result TdError (Cert × List Cert)} (ok (c, info.cert ∷ []))
                (ok (cert, bundle)) =
              rw one at h2 in
            let same : c ≡ cert = ground (arith, h3) in
            record {
              info = info;
              newest = newest;
              bundle_of = ground (arith, h3);
              minted = subst (IsMinted lib authority now params) same minted;
            }
      ]

  -- An authority of a trust domain and what it signed: its subject is the issuer, and its key made the
  -- signature.
  pub record IsSignedBy (uri : Uri) (info : X509AuthorityInfo) (cert : Cert) : Type 0 where
    pub root : IsRoot uri info
    pub issuer : cert.raw_issuer ≡ info.cert.raw_subject
    pub signature : lib.check_signature_from cert info.cert ≡ true

  td_mint_x509_svid-minting :
      (td : TrustDomain) (now : ℤ) (random : Result String ℕ) (id : SpiffeId)
      (public_key : Option PublicKey) (ttl : ℤ) (cert : Cert) (bundle : List Cert)
      (info : X509AuthorityInfo)
      → last td.x509_authorities ≡ some info
      → td_mint_x509_svid ca td now random id public_key ttl ≡ ok (cert, bundle)
      → mint_x509_svid ca
          (record { cert = info.cert; key = info.pk })
          now
          random
          (record { spiffe_id = id; public_key = public_key; ttl = ttl })
        ≡ ok (cert ∷ [])
  unfolding td_mint_x509_svid new_authority
  td_mint_x509_svid-minting td now random id public_key ttl cert bundle info newest h =
      let params : SvidParams = record { spiffe_id = id; public_key = public_key; ttl = ttl } in
      let authority : Authority = record { cert = info.cert; key = info.pk } in
      let h1 = rw (newest, td_mint_x509_svid) at h in
      let (certs, made, h2) =
        >>=-eq-ok (map_err x509_failed (mint_x509_svid ca authority now random params)) _ h1 in
      let made' =
        map_err-eq-ok x509_failed (mint_x509_svid ca authority now random params) certs made in
      let (c, one) = mint_x509_svid-one ca authority now random params certs made' in
      let h3 : ◌≡◌ {A = Result TdError (Cert × List Cert)} (ok (c, info.cert ∷ []))
          (ok (cert, bundle)) =
        rw one at h2 in
      let same : c ≡ cert = ground (arith, h3) in
      subst (λ x. mint_x509_svid ca authority now random params ≡ ok (x ∷ [])) same
        (subst (λ x. mint_x509_svid ca authority now random params ≡ ok x) one made')

  -- After any rotations of a trust domain whose URI is read back as it is written, an SVID that it
  -- issues for an ID that `FromURI` has parsed is signed by its newest authority: that one's subject is
  -- the SVID's issuer, and `CheckSignatureFrom` accepts the signature. The authority is a CA certificate
  -- of the trust domain for its own key and the whole of the returned bundle. The SVID passes the
  -- inspector's check, holds the requested identity and key, and expires no later than the TTL and that
  -- authority.
  pub Reachable-IsIssued :
      (td_uri : String → Uri) (decimal : ℕ → String) (config : TrustDomainConfig) (td : TrustDomain)
      (now : ℤ) (random : Result String ℕ) (id : SpiffeId) (public_key : Option PublicKey) (ttl : ℤ)
      (cert : Cert) (bundle : List Cert) (origin : Uri)
      → doc.is_url (td_uri config.name) ≡ true
      → lib.from_uri origin ≡ ok id
      → Reachable lib ca doc td_uri decimal config td
      → td_mint_x509_svid ca td now random id public_key ttl ≡ ok (cert, bundle)
      → (issued : IsIssued lib td now
          (record { spiffe_id = id; public_key = public_key; ttl = ttl })
          cert
          bundle)
        × IsSignedBy (td_uri config.name) issued.info cert
  Reachable-IsIssued td_uri decimal config td now random id public_key ttl cert bundle origin url
        valid r h =
      let issued =
        td_mint_x509_svid-IsIssued td now random id public_key ttl cert bundle origin valid h in
      let root =
        All-In _ td.x509_authorities issued.info
          (Reachable-IsWellFormed lib ca doc td_uri decimal config td url r).roots
          (In-last td.x509_authorities issued.info issued.newest) in
      let (issuer, signature) =
        mint_x509_svid-signed lib ca doc (record { cert = issued.info.cert; key = issued.info.pk })
          now random (record { spiffe_id = id; public_key = public_key; ttl = ttl }) cert
          (IsRoot-CanIssue (td_uri config.name) issued.info root)
          (td_mint_x509_svid-minting td now random id public_key ttl cert bundle issued.info
            issued.newest h) in
      (issued, record { root = root; issuer = issuer; signature = signature })

-- The recorded expiry of the newest JWT authority does not matter: the tokens that a trust domain
-- mints are the same whatever it is.
pub td_mint_jwt_svid-any_expiry :
    (lib : JoseLib) (td : TrustDomain) (older : List JwtAuthorityInfo) (info : JwtAuthorityInfo)
    (expires_at now : ℤ) (random : Result String String) (id : SpiffeId) (audience : List String)
    (ttl : ℤ)
    → td_mint_jwt_svid lib
        (record td { jwt_authorities = older ++ info ∷ [] })
        now
        random
        id
        audience
        ttl
      ≡ td_mint_jwt_svid lib
          (record td { jwt_authorities = older ++ record info { expires_at = expires_at } ∷ [] })
          now
          random
          id
          audience
          ttl
unfolding td_mint_jwt_svid
td_mint_jwt_svid-any_expiry lib td older info expires_at now random id audience ttl =
    rw
      (
        last-append older info,
        last-append older (record info { expires_at = expires_at }),
        td_mint_jwt_svid,
      )
      refl
