-- ===== src/WlApi/TrustDomain.antt =====
-- trustdomain.go: the authorities of a trust domain, their rotation, minting and bundles. The mutex
-- is left out: each function runs alone. `jwtKeyCounter` is passed and returned, as an int32's bit
-- pattern.
pub mod Rotation
pub mod Minting
pub mod Bundles
pub mod Serving
pub mod Endpoint
pub mod Running
use Prim.Native.String
use spiffecli.Prelude.{
  ℕ, ◌+◌, ◌%◌, ◌^◌, Bool, true, false, Option, none, some, List, [], ◌∷◌, ◌++◌, Result, ok, err,
  ◌>>=◌, map_err, String, Bytes, ◌++ₛ◌, map,
}
use spiffecli.Prelude.Int.{ℤ, pos, ◌+ℤ◌, ◌-ℤ◌}
use spiffecli.Cert.{Uri, SpiffeId, PublicKey, Cert}
use spiffecli.Jwt.{JoseLib}
use spiffecli.X509Authority.{
  second, Template, Signer, CaLib, AuthorityError, lib_error, SvidParams, Authority, new_authority,
  new_serial_number, create_certificate, mint_x509_svid,
}
use spiffecli.JwtAuthority
use spiffecli.JwtAuthority.{JwtAuthorityError}
use spiffecli.WlApi.Config.{TrustDomainConfig}

pub record X509AuthorityInfo : Type 0 where
  pub pk : Signer
  pub cert : Cert

pub record JwtAuthorityInfo : Type 0 where
  pub key_id : String
  pub pk : Signer
  pub expires_at : ℤ
  pub issuer : String

pub record TrustDomain : Type 0 where
  pub config : TrustDomainConfig
  pub x509_authorities : List X509AuthorityInfo
  pub jwt_authorities : List JwtAuthorityInfo

pub data TdError : Type 0 where
  no_authority no_certificates : TdError
  key_failed : String → TdError
  x509_failed : AuthorityError → TdError
  jwt_failed : JwtAuthorityError → TdError

-- `NewTrustDomain`
unfoldable pub new_trust_domain : TrustDomainConfig → TrustDomain
new_trust_domain config = record { config = config; x509_authorities = []; jwt_authorities = [] }

-- `backdate`
abbrev pub backdate : ℤ
backdate = pos second

abbrev pub root_template : Uri → ℕ → ℤ → ℤ → Template
root_template uri serial not_before not_after = record {
  serial_number = serial;
  uris = uri ∷ [];
  country = [];
  organization = [];
  unique_id = none;
  not_before = not_before;
  not_after = not_after;
  subject_key_id = [];
  authority_key_id = [];
  key_usage = 0;
  ext_key_usage = [];
  is_ca = true;
  basic_constraints_valid = true;
}

-- The last element.
abbrev pub last {ℓ} : {A : Type ℓ} → List A → Option A
last [] = none
last (x ∷ []) = some x
last (x ∷ y ∷ xs) = last (y ∷ xs)

-- `jwtKeyCounter.Add(1)`
abbrev pub next_counter : ℕ → ℕ
next_counter n = (n + 1) % 2 ^ 32

abbrev pub certs_of : List X509AuthorityInfo → List Cert
certs_of [] = []
certs_of (a ∷ as') = a.cert ∷ certs_of as'

-- `DERFromCertificates`, and `certsBytes` of utils.go
unfoldable pub der_from_certificates : List Cert → Bytes
der_from_certificates [] = []
der_from_certificates (c ∷ cs) = c.raw ++ der_from_certificates cs

-- The URI of the trust domain's ID, and `%d` of the counter.
module _ (ca : CaLib) (td_uri : String → Uri) (decimal : ℕ → String) where
  -- `rotateX509Authority` at `now`, with the outcome of `generateKey` and of `rand.Int`; the old
  -- state where it fails.
  unfoldable pub root_certificate :
      TrustDomainConfig → Signer → ℤ → Result String ℕ → Result AuthorityError Cert
  root_certificate config key now random = do
    serial ← new_serial_number random
    create_certificate ca
        (root_template (td_uri config.name) serial (now -ℤ backdate)
          (now +ℤ config.x509_authority_ttl))
        none key.public key

  unfoldable pub rotate_x509_authority :
      Result String Signer → ℤ → Result String ℕ → TrustDomain → Result TdError TrustDomain
  rotate_x509_authority generated now random td = do
    key ← map_err key_failed generated
    cert ← map_err x509_failed (root_certificate td.config key now random)
    ok (record td {
      x509_authorities = td.x509_authorities ++ record { pk = key; cert = cert } ∷ [];
    })

  -- `rotateJWTAuthority`, with the new counter
  unfoldable pub rotate_jwt_authority :
      Result String Signer → ℤ → ℕ → TrustDomain → Result TdError (TrustDomain × ℕ)
  rotate_jwt_authority generated now counter td = do
    key ← map_err key_failed generated
    let n = next_counter counter
    ok (
      record td {
        jwt_authorities =
            td.jwt_authorities
            ++ record {
              key_id = "spirl-dev-jwt-key-" ++ₛ decimal n;
              pk = key;
              expires_at = now +ℤ td.config.jwt_authority_ttl;
              issuer = "";
            }
              ∷ [];
      },
      n,
    )

module _ (ca : CaLib) where
  -- `MintX509SVID`: the certificate and the bundle
  unfoldable pub td_mint_x509_svid :
      TrustDomain
      → ℤ
      → Result String ℕ
      → SpiffeId
      → Option PublicKey
      → ℤ
      → Result TdError (Cert × List Cert)
  td_mint_x509_svid td now random id public_key ttl = elim (last td.x509_authorities) [
    | none ↦ err no_authority
    | some info ↦ do
      authority ← map_err x509_failed (new_authority (some info.cert) (some info.pk))
      certs ← map_err x509_failed (
          mint_x509_svid ca authority now random
            (record { spiffe_id = id; public_key = public_key; ttl = ttl }))
      elim certs [ [] ↦ err no_certificates | c ∷ cs ↦ ok (c, info.cert ∷ []) ]
  ]

-- `X509Bundles`: the one entry of the map, with `IDString` of the trust domain
unfoldable pub x509_bundles : (String → String) → TrustDomain → String × Bytes
x509_bundles id_string td =
    (id_string td.config.name, der_from_certificates (certs_of td.x509_authorities))

module _ (lib : JoseLib) where
  -- `MintJWTSVID`
  unfoldable pub td_mint_jwt_svid :
      TrustDomain → ℤ → Result String String → SpiffeId → List String → ℤ → Result TdError String
  td_mint_jwt_svid td now random id audience ttl = elim (last td.jwt_authorities) [
    | none ↦ err no_authority
    | some info ↦ do
      authority ← map_err jwt_failed (
          JwtAuthority.new_authority lib info.key_id (some info.pk) info.issuer
            (now +ℤ td.config.jwt_authority_ttl))
      map_err jwt_failed (
          JwtAuthority.mint_jwt_svid lib authority now random
            (record { spiffe_id = id; audience = audience; ttl = ttl }))
  ]
