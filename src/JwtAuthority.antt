-- ===== src/JwtAuthority.antt =====
-- internal/jwtauthority: the signing of a JWT-SVID.
pub mod Mint
use Prim.Native.String
use spiffecli.Prelude.{
  ℕ, Bool, true, false, not, ◌||◌, Option, none, some, List, [], ◌∷◌, Result, ok, err, ◌>>=◌, ◌>>◌,
  guard, map_err, String, ◌=ₛ◌, is_empty, if◌then◌else◌,
}
use spiffecli.Prelude.Int.{ℤ, pos, ◌+ℤ◌, ltb_ℤ, leb_ℤ, eqb_ℤ}
use spiffecli.Cert.{SpiffeId}
use spiffecli.Cryptoutil.{KeyError, jose_alg_from_public_key}
use spiffecli.X509Authority.{Signer, is_zero_id}
use spiffecli.Jwt.{Claims, JwtSigner, JoseLib}

pub data JwtAuthorityError : Type 0 where
  key_id_required key_required expires_at_required : JwtAuthorityError
  id_unset audience_unset audience_empty_value bad_ttl expired : JwtAuthorityError
  no_algorithm : KeyError → JwtAuthorityError
  lib_error : String → JwtAuthorityError

pub record SvidParams : Type 0 where
  pub spiffe_id : SpiffeId
  pub audience : List String
  pub ttl : ℤ

pub record Authority : Type 0 where
  pub signer : JwtSigner
  pub issuer : String
  pub expires_at : ℤ

unfoldable pub has_empty_audience : List String → Bool
has_empty_audience [] = false
has_empty_audience (v ∷ vs) = v =ₛ "" || has_empty_audience vs

unfoldable pub determine_expiry : ℤ → ℤ → ℤ → Result JwtAuthorityError ℤ
determine_expiry now ttl expiration_cap =
    if not (ltb_ℤ now expiration_cap)
    then err expired
    else ok (if ltb_ℤ expiration_cap (now +ℤ ttl) then expiration_cap else now +ℤ ttl)

module _ (lib : JoseLib) where
  unfoldable pub with_key : String → Signer → String → ℤ → Result JwtAuthorityError Authority
  with_key key_id key issuer expires_at = do
    guard (not (eqb_ℤ expires_at (pos 0))) expires_at_required
    alg ← map_err no_algorithm (jose_alg_from_public_key key.public)
    signer ←
        map_err lib_error (lib.new_signer (record { algorithm = alg; key = key; key_id = key_id }))
    ok (record { signer = signer; issuer = issuer; expires_at = expires_at })

  -- `New`, with a nil key as none
  unfoldable pub new_authority :
      String → Option Signer → String → ℤ → Result JwtAuthorityError Authority
  new_authority key_id key issuer expires_at =
      if key_id =ₛ ""
      then err key_id_required
      else elim key [ none ↦ err key_required | some k ↦ with_key key_id k issuer expires_at ]

  unfoldable pub svid_claims : Authority → SvidParams → ℤ → ℤ → String → Claims
  svid_claims a params now expiry jti = record {
    issuer = a.issuer;
    subject = params.spiffe_id.text;
    audience = params.audience;
    expiry = some (lib.numeric_date expiry);
    issued_at = some (lib.numeric_date now);
    id = jti;
  }

  -- `MintJWTSVID` at the time `now`, with what `generateJTI` returned.
  unfoldable pub mint_jwt_svid :
      Authority → ℤ → Result String String → SvidParams → Result JwtAuthorityError String
  mint_jwt_svid a now random params = do
    guard (not (is_zero_id params.spiffe_id)) id_unset
    guard (not (is_empty params.audience)) audience_unset
    guard (not (has_empty_audience params.audience)) audience_empty_value
    guard (not (leb_ℤ params.ttl (pos 0))) bad_ttl
    expiry ← determine_expiry now params.ttl a.expires_at
    jti ← map_err lib_error random
    map_err lib_error (lib.sign a.signer (svid_claims a params now expiry jti))
