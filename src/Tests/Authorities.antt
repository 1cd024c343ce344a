-- ===== src/Tests/Authorities.antt =====
-- SVIDs that authorities and trust domains mint.
use spiffecli.Prelude.{
  Option, Result, List, ℕ, ◌≡◌, ◌↔◌, refl, true, none, some, [], ◌∷◌, ok, err, String, In, All,
  arith,
}
use spiffecli.Prelude.Int.{ℤ, ◌+ℤ◌, ◌-ℤ◌, ◌≤ℤ◌}
use spiffecli.Cert.{Cert, Uri}
use spiffecli.Cryptoutil.{public_key_equal, jose_alg_from_public_key, rsa_public_key_equal}
use spiffecli.X509Authority.{
  expired, determine_lifetime, Authority, mint_x509_svid, mint_with_key, new_serial_number,
  get_subject_key_id, svid_template, create_certificate, new_authority,
}
use spiffecli.X509Authority.Lifetime.{IsLifetime, determine_lifetime_correct}
use spiffecli.X509Authority.Mint.{IsMinted, mint_x509_svid-IsMinted}
use spiffecli.Jwt.{Token}
use spiffecli.JwtInspect.{is_svid}
use spiffecli.JwtInspect.Conformance.{IsJwtSvid, is_svid_iff}
use spiffecli.Jwt.{Claims}
use spiffecli.JwtAuthority
use spiffecli.JwtAuthority.Mint as JwtMint
use spiffecli.JwtSvid.{
  sign_token, prune_empty_values, ValidateLib, single_header, find_key, validate_token,
}
use spiffecli.JwtSvid.Signing.{IsSigned, sign_token-IsSigned}
use spiffecli.JwtSvid.Validation.{IsValidated, validate_token-IsValidated}
use spiffecli.WlApi.Config.{TrustDomainConfig, WorkloadConfig}
use spiffecli.WlApi.TrustDomain.{
  TrustDomain, X509AuthorityInfo, JwtAuthorityInfo, new_trust_domain, rotate_x509_authority,
  root_certificate, td_mint_x509_svid, td_mint_jwt_svid,
}
use spiffecli.WlApi.TrustDomain.Rotation.{
  Reachable, start, x509, IsWellFormed, Reachable-IsWellFormed,
}
use spiffecli.WlApi.TrustDomain.Minting.{
  IsIssued, IsSignedBy, Reachable-IsIssued, td_mint_jwt_svid-any_expiry,
}
use spiffecli.X509Authority.{AuthorityError}
use spiffecli.JwtAuthority.{JwtAuthorityError}
use spiffecli.Cert.{PublicKey}
use spiffecli.WlApi.TrustDomain.{TdError, x509_failed, jwt_failed, rotate_jwt_authority}
use spiffecli.WlApi.TrustDomain.Bundles.{first_rotations}
use spiffecli.WlApi.TrustDomain.Running.{Running, started, Running-mints}
use spiffecli.WlApi.Workload.{Turn, canceled, fetch_x509_svid}
use spiffecli.WlApi.Workload.Stream.{IsResponse, fetch_x509_svid-IsResponse}
use spiffecli.Tests.Fixtures.{
  seconds, root, leaf, lib, params, root_key, root_signer, leaf_signer, leaf_uri, key, id,
}
use spiffecli.Tests.Libraries.{
  ca, ca-IsDocumented, every_url, jose, jose-IsDocumented, token_claims,
}

abbrev authority : Authority
authority = record { cert = root; key = root_signer }

minted : mint_x509_svid ca authority (seconds 2000) (ok 1) params ≡ ok (leaf ∷ [])
unfolding mint_x509_svid mint_with_key new_serial_number determine_lifetime get_subject_key_id
    svid_template create_certificate ◌+ℤ◌ ◌-ℤ◌
minted = refl

mint_x509_svid-IsMinted_example :
    (cert : Cert) × (leaf ∷ [] ≡ cert ∷ []) × IsMinted lib authority (seconds 2000) params cert
mint_x509_svid-IsMinted_example =
    mint_x509_svid-IsMinted lib ca ca-IsDocumented authority (seconds 2000) (ok 1) params
      (leaf ∷ []) leaf_uri refl minted

determine_lifetime_correct_example :
    ((determine_lifetime (seconds 5) (seconds 1) (seconds 9) ≡ err expired)
      ↔ (seconds 9 ≤ℤ seconds 5))
    × ((nb na : ℤ)
        → determine_lifetime (seconds 5) (seconds 1) (seconds 9) ≡ ok (nb, na)
        → IsLifetime (seconds 5) (seconds 1) (seconds 9) nb na)
determine_lifetime_correct_example =
    determine_lifetime_correct (seconds 5) (seconds 1) (seconds 9) (omega arith)

abbrev config : TrustDomainConfig
config = record {
  name = "example.org";
  x509_authority_ttl = seconds 86400;
  jwt_authority_ttl = seconds 86400;
  workloads = [];
}

abbrev td_uri : String → Uri
td_uri name = record { scheme = "https"; text = name }

abbrev decimal : ℕ → String
decimal n = "1"

abbrev info : X509AuthorityInfo
info = record { pk = root_signer; cert = root }

abbrev pub jwt_info : JwtAuthorityInfo
jwt_info = record { key_id = "k1"; pk = root_signer; expires_at = seconds 3000; issuer = "" }

abbrev empty_td : TrustDomain
empty_td = record { config = config; x509_authorities = []; jwt_authorities = [] }

abbrev pub td : TrustDomain
td = record { config = config; x509_authorities = info ∷ []; jwt_authorities = [] }

rotated :
    rotate_x509_authority ca td_uri decimal (ok root_signer) (seconds 1000) (ok 0) empty_td ≡ ok td
unfolding rotate_x509_authority root_certificate new_serial_number create_certificate ◌+ℤ◌ ◌-ℤ◌
rotated = refl

td_reachable : Reachable lib ca ca-IsDocumented td_uri decimal config td
unfolding new_trust_domain
td_reachable = x509 (ok root_signer) (seconds 1000) (ok 0) empty_td td start rotated

Reachable-IsWellFormed_example : IsWellFormed lib ca ca-IsDocumented td_uri decimal config td
Reachable-IsWellFormed_example =
    Reachable-IsWellFormed lib ca ca-IsDocumented td_uri decimal config td
      (every_url (td_uri "example.org")) td_reachable

issued :
    td_mint_x509_svid ca td (seconds 2000) (ok 1) id (some key) (seconds 3600)
    ≡ ok (leaf, root ∷ [])
unfolding td_mint_x509_svid new_authority mint_x509_svid mint_with_key new_serial_number
    determine_lifetime get_subject_key_id svid_template create_certificate ◌+ℤ◌ ◌-ℤ◌
issued = refl

Reachable-IsIssued_example :
    (it : IsIssued lib td (seconds 2000) params leaf (root ∷ [])) × IsSignedBy lib ca
      ca-IsDocumented
      (td_uri "example.org")
      it.info
      leaf
Reachable-IsIssued_example =
    Reachable-IsIssued lib ca ca-IsDocumented td_uri decimal config td (seconds 2000) (ok 1) id
      (some key) (seconds 3600) leaf (root ∷ []) leaf_uri (every_url (td_uri "example.org")) refl
      td_reachable issued

abbrev started_td : TrustDomain
started_td = record td {
  jwt_authorities =
      record {
        key_id = "spirl-dev-jwt-key-1";
        pk = root_signer;
        expires_at = seconds 87400;
        issuer = "";
      }
      ∷ [];
}

td_started :
    first_rotations ca td_uri decimal
      (ok root_signer)
      (ok root_signer)
      (seconds 1000)
      (ok 0)
      0
      (new_trust_domain config)
    ≡ ok (started_td, 1)
unfolding first_rotations new_trust_domain rotate_x509_authority rotate_jwt_authority
    root_certificate new_serial_number create_certificate ◌+ℤ◌ ◌-ℤ◌
td_started = refl

started_td-Running : Running ca td_uri decimal config started_td
started_td-Running =
    started (ok root_signer) (ok root_signer) (seconds 1000) (ok 0) 0 1 started_td td_started

Running-mints_example :
    ((random : Result String ℕ) (public_key : Option PublicKey) (e : TdError)
      → td_mint_x509_svid ca started_td (seconds 2000) random id public_key (seconds 3600) ≡ err e
      → (f : AuthorityError) × (e ≡ x509_failed f))
    × ((random : Result String String) (audience : List String) (e : TdError)
        → td_mint_jwt_svid jose started_td (seconds 2000) random id audience (seconds 3600) ≡ err e
        → (f : JwtAuthorityError) × (e ≡ jwt_failed f))
Running-mints_example =
    Running-mints ca td_uri decimal jose config started_td (seconds 2000) id (seconds 3600)
      started_td-Running

abbrev workload : WorkloadConfig
workload = record {
  id = id;
  socket_path = "/tmp/web.sock";
  x509_svid_ttl = seconds 3600;
  x509_svid_rotate_at = seconds 600;
  jwt_svid_ttl = seconds 3600;
}

abbrev turn : Turn
turn = record {
  td = td;
  generated = ok leaf_signer;
  marshal = λ k. ok (9 ∷ []);
  now = seconds 2000;
  random = ok 1;
  send = ok tt;
  wake = canceled;
}

fetch_x509_svid-IsResponse_example :
    All
      (λ r.
        (t : Turn) × In t (turn ∷ [])
        × IsResponse lib ca ca-IsDocumented (td_uri "example.org") workload t r)
      (fetch_x509_svid ca workload (turn ∷ [])).0
fetch_x509_svid-IsResponse_example =
    fetch_x509_svid-IsResponse lib ca ca-IsDocumented workload td_uri decimal config
      (every_url (td_uri "example.org")) leaf_uri refl (turn ∷ []) (td_reachable, tt)

td_mint_jwt_svid-any_expiry_example :
    td_mint_jwt_svid jose
      (record td { jwt_authorities = jwt_info ∷ [] })
      (seconds 2000)
      (ok "")
      id
      ("db" ∷ [])
      (seconds 3600)
    ≡ td_mint_jwt_svid jose
        (record td { jwt_authorities = record jwt_info { expires_at = seconds 1 } ∷ [] })
        (seconds 2000)
        (ok "")
        id
        ("db" ∷ [])
        (seconds 3600)
td_mint_jwt_svid-any_expiry_example =
    td_mint_jwt_svid-any_expiry jose td [] jwt_info (seconds 1) (seconds 2000) (ok "") id
      ("db" ∷ []) (seconds 3600)

abbrev jwt_authority : JwtAuthority.Authority
jwt_authority = record {
  signer = record { algorithm = "RS256"; key = root_signer; key_id = "k1" };
  issuer = "";
  expires_at = seconds 9000;
}

abbrev jwt_params : JwtAuthority.SvidParams
jwt_params = record { spiffe_id = id; audience = "db" ∷ []; ttl = seconds 3600 }

jwt_made :
    JwtAuthority.new_authority jose "k1" (some root_signer) "" (seconds 9000) ≡ ok jwt_authority
unfolding JwtAuthority.new_authority JwtAuthority.with_key jose_alg_from_public_key
jwt_made = refl

jwt_minted :
    JwtAuthority.mint_jwt_svid jose jwt_authority (seconds 2000) (ok "") jwt_params ≡ ok "token"
unfolding JwtAuthority.mint_jwt_svid JwtAuthority.has_empty_audience JwtAuthority.determine_expiry
    JwtAuthority.svid_claims ◌+ℤ◌
jwt_minted = refl

mint_jwt_svid-IsMinted_example :
    JwtMint.IsMinted jose jwt_authority (seconds 2000) jwt_params "token"
mint_jwt_svid-IsMinted_example =
    JwtMint.mint_jwt_svid-IsMinted jose jose-IsDocumented "k1" (some root_signer) "" (seconds 9000)
      jwt_authority (seconds 2000) (ok "") jwt_params "token" id.text refl jwt_made (omega arith)
      jwt_minted

abbrev bare_token : Token
bare_token = record {
  headers = record { algorithm = "RS256"; key_id = "k1"; extra_typ = none } ∷ [];
  claims = ok token_claims;
}

is_svid_iff_example :
    (is_svid jose bare_token ≡ ok (true, []))
    ↔ ((c : Claims) × (bare_token.claims ≡ ok c) × IsJwtSvid jose bare_token c)
is_svid_iff_example = is_svid_iff jose bare_token

keys_equal : public_key_equal key key ≡ ok true
unfolding public_key_equal rsa_public_key_equal
keys_equal = refl

abbrev pub validate_lib : ValidateLib
validate_lib = record {
  verified_claims = λ tok k. ok (("sub", "spiffe://example.org/web") ∷ []);
  validate = λ c audience now. ok tt;
  jwt_bundle = λ name. ok (λ key_id. some root_key);
}

token_valid :
    validate_token jose validate_lib (seconds 2000) "token" ("db" ∷ [])
    ≡ ok (id, ("sub", "spiffe://example.org/web") ∷ [])
unfolding validate_token single_header find_key
token_valid = refl

validate_token-IsValidated_example :
    IsValidated jose validate_lib
      (seconds 2000)
      "token"
      ("db" ∷ [])
      id
      (("sub", "spiffe://example.org/web") ∷ [])
validate_token-IsValidated_example =
    validate_token-IsValidated jose validate_lib (seconds 2000) "token" ("db" ∷ []) id
      (("sub", "spiffe://example.org/web") ∷ []) token_valid

token_signed :
    sign_token jose "" (seconds 2000) id ("" ∷ "db" ∷ []) (seconds 5600) root_signer "k1"
    ≡ ok "token"
unfolding sign_token prune_empty_values jose_alg_from_public_key
token_signed = refl

sign_token-IsSigned_example : IsSigned jose id ("" ∷ "db" ∷ []) (seconds 5600) "k1" "token"
sign_token-IsSigned_example =
    sign_token-IsSigned jose jose-IsDocumented "" (seconds 2000) id ("" ∷ "db" ∷ []) (seconds 5600)
      root_signer "k1" "token" token_signed
