-- ===== src/WlApi/TrustDomain/Running.antt =====
-- A trust domain from the first rotations of its `Run` on: it always has authorities.
use spiffecli.Prelude.{
  ℕ, ◌≡◌, ◌∙◌, ap, List, [], ◌∷◌, ◌++◌, Option, some, inl, inr, Result, ok, err, >>=-eq-ok,
  >>=-eq-err, map_err, map_err-eq-ok, map_err-eq-err, String, ◌++ₛ◌, arith,
}
use spiffecli.Prelude.Int.{ℤ, ◌+ℤ◌}
use spiffecli.Cert.{Uri, SpiffeId, PublicKey}
use spiffecli.Jwt.{JoseLib}
use spiffecli.X509Authority.{
  Signer, CaLib, AuthorityError, SvidParams, Authority, new_authority, mint_x509_svid,
}
use spiffecli.X509Authority.Mint.{mint_x509_svid-one}
use spiffecli.JwtAuthority
use spiffecli.JwtAuthority.{JwtAuthorityError}
use spiffecli.WlApi.Config.{TrustDomainConfig}
use spiffecli.WlApi.TrustDomain.{
  X509AuthorityInfo, JwtAuthorityInfo, TrustDomain, TdError, key_failed, x509_failed, jwt_failed,
  new_trust_domain, next_counter, last, root_certificate, rotate_x509_authority,
  rotate_jwt_authority, td_mint_x509_svid, td_mint_jwt_svid,
}
use spiffecli.WlApi.TrustDomain.Rotation.{last-append}
use spiffecli.WlApi.TrustDomain.Bundles.{first_rotations}

-- There is a newest authority of each kind.
pub record IsStocked (td : TrustDomain) : Type 0 where
  pub x509_info : X509AuthorityInfo
  pub newest_x509 : last td.x509_authorities ≡ some x509_info
  pub jwt_info : JwtAuthorityInfo
  pub newest_jwt : last td.jwt_authorities ≡ some jwt_info

module _ (ca : CaLib) (td_uri : String → Uri) (decimal : ℕ → String) where
  -- The first rotations, and any later ones.
  pub data Running (config : TrustDomainConfig) : TrustDomain → Type 0 where
    started :
        (x509_key jwt_key : Result String Signer) (now : ℤ) (random : Result String ℕ)
        (counter counter' : ℕ) (td : TrustDomain)
        → first_rotations ca td_uri decimal x509_key jwt_key now random counter
            (new_trust_domain config)
          ≡ ok (td, counter')
        → Running config td
    x509_rotated :
        (generated : Result String Signer) (now : ℤ) (random : Result String ℕ)
        (td td' : TrustDomain)
        → Running config td
        → rotate_x509_authority ca td_uri decimal generated now random td ≡ ok td'
        → Running config td'
    jwt_rotated :
        (generated : Result String Signer) (now : ℤ) (counter counter' : ℕ) (td td' : TrustDomain)
        → Running config td
        → rotate_jwt_authority ca td_uri decimal generated now counter td ≡ ok (td', counter')
        → Running config td'

  rotate_x509_authority-newest :
      (generated : Result String Signer) (now : ℤ) (random : Result String ℕ) (td td' : TrustDomain)
      → rotate_x509_authority ca td_uri decimal generated now random td ≡ ok td'
      → (info : X509AuthorityInfo) × (last td'.x509_authorities ≡ some info)
        × (td'.jwt_authorities ≡ td.jwt_authorities)
  unfolding rotate_x509_authority
  rotate_x509_authority-newest generated now random td td' h =
      let (key, _, h1) = >>=-eq-ok (map_err key_failed generated) _ h in
      let (cert, _, h2) =
        >>=-eq-ok
          (map_err x509_failed (root_certificate ca td_uri decimal td.config key now random)) _
          h1 in
      let info : X509AuthorityInfo = record { pk = key; cert = cert } in
      let built : ◌≡◌ {A = Result TdError TrustDomain}
          (ok (record td { x509_authorities = td.x509_authorities ++ info ∷ [] })) (ok td') =
        h2 in
      let longer : td'.x509_authorities ≡ td.x509_authorities ++ info ∷ [] =
        ground (arith, built) in
      (info, ap last longer ∙ last-append td.x509_authorities info, ground (arith, built))

  rotate_jwt_authority-newest :
      (generated : Result String Signer) (now : ℤ) (counter counter' : ℕ) (td td' : TrustDomain)
      → rotate_jwt_authority ca td_uri decimal generated now counter td ≡ ok (td', counter')
      → (info : JwtAuthorityInfo) × (last td'.jwt_authorities ≡ some info)
        × (td'.x509_authorities ≡ td.x509_authorities)
  unfolding rotate_jwt_authority
  rotate_jwt_authority-newest generated now counter counter' td td' h =
      let (key, _, h1) = >>=-eq-ok (map_err key_failed generated) _ h in
      let info : JwtAuthorityInfo = record {
        key_id = "spirl-dev-jwt-key-" ++ₛ decimal (next_counter counter);
        pk = key;
        expires_at = now +ℤ td.config.jwt_authority_ttl;
        issuer = "";
      } in
      let longer : td'.jwt_authorities ≡ td.jwt_authorities ++ info ∷ [] = ground (arith, h1) in
      (info, ap last longer ∙ last-append td.jwt_authorities info, ground (arith, h1))

  -- Whatever rotations follow, there is a newest authority of each kind.
  Running-IsStocked :
      (config : TrustDomainConfig) (td : TrustDomain) → Running config td → IsStocked td
  unfolding first_rotations
  Running-IsStocked config td (started x509_key jwt_key now random counter counter' td' h) =
      let (between, first, second) =
        >>=-eq-ok
          (rotate_x509_authority ca td_uri decimal x509_key now random (new_trust_domain config)) _
          h in
      let (x, newest, _) =
        rotate_x509_authority-newest x509_key now random (new_trust_domain config) between first in
      let (j, newest', same) =
        rotate_jwt_authority-newest jwt_key now counter counter' between td second in
      record {
        x509_info = x;
        newest_x509 = ap last same ∙ newest;
        jwt_info = j;
        newest_jwt = newest';
      }
  Running-IsStocked config td' (x509_rotated generated now random td td'' r h) =
      let before = Running-IsStocked config td r in
      let (x, newest, same) = rotate_x509_authority-newest generated now random td td' h in
      record {
        x509_info = x;
        newest_x509 = newest;
        jwt_info = before.jwt_info;
        newest_jwt = ap last same ∙ before.newest_jwt;
      }
  Running-IsStocked config td' (jwt_rotated generated now counter counter' td td'' r h) =
      let before = Running-IsStocked config td r in
      let (j, newest, same) = rotate_jwt_authority-newest generated now counter counter' td td' h in
      record {
        x509_info = before.x509_info;
        newest_x509 = ap last same ∙ before.newest_x509;
        jwt_info = j;
        newest_jwt = newest;
      }

  -- Once a trust domain has started, and after any later rotations, it never fails to mint for want of
  -- an authority: a failure of `MintX509SVID` is one of the X.509 authority itself, and a failure of
  -- `MintJWTSVID` is one of the JWT authority itself.
  pub Running-mints :
      (jose : JoseLib) (config : TrustDomainConfig) (td : TrustDomain) (now : ℤ) (id : SpiffeId)
      (ttl : ℤ)
      → Running config td
      → ((random : Result String ℕ) (public_key : Option PublicKey) (e : TdError)
          → td_mint_x509_svid ca td now random id public_key ttl ≡ err e
          → (f : AuthorityError) × (e ≡ x509_failed f))
        × ((random : Result String String) (audience : List String) (e : TdError)
            → td_mint_jwt_svid jose td now random id audience ttl ≡ err e
            → (f : JwtAuthorityError) × (e ≡ jwt_failed f))
  unfolding td_mint_x509_svid td_mint_jwt_svid new_authority
  Running-mints jose config td now id ttl r =
      let stock = Running-IsStocked config td r in
      (
        λ random public_key e h.
            let params : SvidParams = record {
              spiffe_id = id;
              public_key = public_key;
              ttl = ttl;
            } in
            let a : Authority = record { cert = stock.x509_info.cert; key = stock.x509_info.pk } in
            let h1 = rw (stock.newest_x509, td_mint_x509_svid) at h in
            elim (>>=-eq-err (map_err x509_failed (mint_x509_svid ca a now random params)) _ e h1) [
              | inl failing ↦ let (f, _, same) = map_err-eq-err x509_failed _ e failing in (f, cc)
              | inr (certs, made, h2) ↦
                  let (c, one) = mint_x509_svid-one ca a now random params certs (
                    map_err-eq-ok x509_failed (mint_x509_svid ca a now random params) certs made) in
                  cc (rw one at h2)
            ],
        λ random audience e h.
            let params : JwtAuthority.SvidParams = record {
              spiffe_id = id;
              audience = audience;
              ttl = ttl;
            } in
            let made =
              JwtAuthority.new_authority jose stock.jwt_info.key_id (some stock.jwt_info.pk)
                stock.jwt_info.issuer (now +ℤ td.config.jwt_authority_ttl) in
            let h1 = rw (stock.newest_jwt, td_mint_jwt_svid) at h in
            elim (>>=-eq-err (map_err jwt_failed made) _ e h1) [
              | inl failing ↦ let (f, _, same) = map_err-eq-err jwt_failed made e failing in (f, cc)
              | inr (a, _, h2) ↦
                  let (f, _, same) =
                    map_err-eq-err jwt_failed (JwtAuthority.mint_jwt_svid jose a now random params)
                      e h2 in
                  (f, cc)
            ],
      )
