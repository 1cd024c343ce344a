-- ===== src/JwtSvid.antt =====
-- sign.go and validate.go of internal/jwtsvid: the signing of a token for an identity, and the
-- validation of a token against the JWT bundles.
pub mod Validation
pub mod Signing
pub mod Client
pub mod Requests
use Prim.Native.String
use spiffecli.Prelude.{
  ℕ, ◌==◌, Bool, true, false, not, if◌then◌else◌, Option, none, some, List, [], ◌∷◌, Result, ok,
  err, ◌>>=◌, ◌>>◌, guard, map_err, String, ◌=ₛ◌, one_of, is_empty, length,
}
use spiffecli.Prelude.Int.{ℤ, pos, eqb_ℤ}
use spiffecli.Cert.{SpiffeId, PublicKey}
use spiffecli.Cryptoutil.{KeyError, jose_alg_from_public_key}
use spiffecli.X509Authority.{Signer, is_zero_id}
use spiffecli.Jwt.{Header, Claims, Token, JwtSigner, JoseLib}
use spiffecli.JwtInspect.{svid_signature_algorithms}

pub data SignError : Type 0 where
  id_required expiration_required audience_required kid_required : SignError
  no_algorithm : KeyError → SignError
  signer_failed signing_failed : String → SignError

-- What `Validate` of go-jose returns.
pub data ClaimsError : Type 0 where
  expired invalid_audience : ClaimsError
  other_claims_error : String → ClaimsError

pub data ValidateError : Type 0 where
  unparsable missing_key_id missing_subject invalid_subject : ValidateError
  header_count : ℕ → ValidateError
  unsupported_algorithm : String → ValidateError
  unreadable_claims no_keys unverified : String → ValidateError
  key_not_found : String → String → ValidateError
  token_expired : ValidateError
  unexpected_audience : List String → ValidateError
  invalid_claims : String → ValidateError

-- The claims of a token after its signature is verified with a key, `Validate` with an audience and a
-- time, and `GetJWTBundleForTrustDomain` with `FindJWTAuthority` of the bundle.
pub record ValidateLib : Type 0 where
  pub verified_claims : Token → PublicKey → Result String (List (String × String))
  pub validate : Claims → List String → ℤ → Result ClaimsError (Unit {0})
  pub jwt_bundle : String → Result String (String → Option PublicKey)

unfoldable pub prune_empty_values : List String → List String
prune_empty_values [] = []
prune_empty_values (v ∷ vs) =
    let rest = prune_empty_values vs in if not (v =ₛ "") then v ∷ rest else rest

module _ (jose : JoseLib) where
  -- `SignToken` at the time `now`
  unfoldable pub sign_token :
      String → ℤ → SpiffeId → List String → ℤ → Signer → String → Result SignError String
  sign_token issuer now id audience expires signer kid = do
    guard (not (is_zero_id id)) id_required
    guard (not (eqb_ℤ expires (pos 0))) expiration_required
    guard (not (is_empty (prune_empty_values audience))) audience_required
    guard (not (kid =ₛ "")) kid_required
    alg ← map_err no_algorithm (jose_alg_from_public_key signer.public)
    jwt_signer ←
        map_err signer_failed
          (jose.new_signer (record { algorithm = alg; key = signer; key_id = kid }))
    map_err signing_failed (
        jose.sign jwt_signer (record {
          issuer = issuer;
          subject = id.text;
          audience = prune_empty_values audience;
          expiry = some (jose.numeric_date expires);
          issued_at = some (jose.numeric_date now);
          id = "";
        }))

-- The messages for the errors of `Validate`.
abbrev pub pretty : List String → ClaimsError → ValidateError
pretty audience expired = token_expired
pretty audience invalid_audience = unexpected_audience audience
pretty audience (other_claims_error e) = invalid_claims e

-- `Headers[0]`, if it is the only one
unfoldable pub single_header : List Header → Result ValidateError Header
single_header [] = err (header_count 0)
single_header (h ∷ []) = ok h
single_header (h ∷ i ∷ hs) = err (header_count (length (h ∷ i ∷ hs)))

unfoldable pub find_key :
    String → String → (String → Option PublicKey) → Result ValidateError PublicKey
find_key key_id td bundle = elim (bundle key_id) [
  | none ↦ err (key_not_found key_id td)
  | some key ↦ ok key
]

abbrev pub to_unparsable : String → ValidateError
to_unparsable e = unparsable

abbrev pub to_invalid_subject : String → ValidateError
to_invalid_subject e = invalid_subject

module _ (jose : JoseLib) (lib : ValidateLib) where
  -- `ValidateToken` at the time `now`
  unfoldable pub validate_token :
      ℤ → String → List String → Result ValidateError (SpiffeId × List (String × String))
  validate_token now token audience = do
    tok ← map_err to_unparsable (jose.parse_signed token)
    header ← single_header tok.headers
    guard (one_of header.algorithm svid_signature_algorithms)
        (unsupported_algorithm header.algorithm)
    guard (not (header.key_id =ₛ "")) missing_key_id
    claims ← map_err unreadable_claims tok.claims
    guard (not (claims.subject =ₛ "")) missing_subject
    id ← map_err to_invalid_subject (jose.from_string claims.subject)
    bundle ← map_err no_keys (lib.jwt_bundle id.trust_domain)
    key ← find_key header.key_id id.trust_domain bundle
    claims_map ← map_err unverified (lib.verified_claims tok key)
    map_err (pretty audience) (lib.validate claims audience now)
    ok (id, claims_map)
