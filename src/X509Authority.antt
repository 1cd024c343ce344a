-- ===== src/X509Authority.antt =====
-- internal/x509authority, with `GetSubjectKeyID` and `NewSerialNumber` of internal/x509util: the
-- signing of an X.509-SVID. Times and durations are nanoseconds, with no upper bound.
pub mod Lifetime
pub mod Mint
use Prim.Native.String
use spiffecli.Prelude.{
  ℕ, ◌+◌, ◌*◌, Bool, true, false, not, if◌then◌else◌, Option, none, some, List, [], ◌∷◌, Result, ok,
  err, ◌>>=◌, ◌>>◌, guard, map_err, String, Bytes, ◌=ₛ◌,
}
use spiffecli.Prelude.Int.{ℤ, pos, ◌+ℤ◌, ◌-ℤ◌, ltb_ℤ, leb_ℤ}
use spiffecli.Cert.{Uri, SpiffeId, PublicKey, Cert}

abbrev pub second : ℕ
second = 1_000_000_000

-- `SVIDBackdatePeriod`
abbrev pub svid_backdate_period : ℤ
svid_backdate_period = pos (10 * second)

-- The certificate that is handed to `x509.CreateCertificate`.
pub record Template : Type 0 where
  pub serial_number : ℕ
  pub uris : List Uri
  pub country : List String
  pub organization : List String
  pub unique_id : Option SpiffeId
  pub not_before : ℤ
  pub not_after : ℤ
  pub subject_key_id : Bytes
  pub authority_key_id : Bytes
  pub key_usage : ℕ
  pub ext_key_usage : List ℕ
  pub is_ca : Bool
  pub basic_constraints_valid : Bool

-- A `crypto.Signer` by its public key and a name for the private one.
pub record Signer : Type 0 where
  pub public : PublicKey
  pub handle : ℕ

-- The calls of the standard library and of go-spiffe: `CreateCertificate` with a template, a parent,
-- a public key and the parent's signer, `ParseCertificate`, `MarshalPKIXPublicKey`, the bits of
-- `asn1.Unmarshal`, `sha1.Sum`, and `ID.URL`.
pub record CaLib : Type 0 where
  pub create_certificate : Template → Option Cert → PublicKey → Signer → Result String Bytes
  pub parse_certificate : Bytes → Result String Cert
  pub marshal_pkix_public_key : PublicKey → Result String Bytes
  pub unmarshal_key_bits : Bytes → Result String Bytes
  pub sha1 : Bytes → Bytes
  pub id_url : SpiffeId → Uri

pub data AuthorityError : Type 0 where
  cert_required key_required : AuthorityError
  id_unset public_key_unset bad_ttl expired : AuthorityError
  lib_error : String → AuthorityError

pub record SvidParams : Type 0 where
  pub spiffe_id : SpiffeId
  pub public_key : Option PublicKey
  pub ttl : ℤ

pub record Authority : Type 0 where
  pub cert : Cert
  pub key : Signer

-- `New`, with nil as none
unfoldable pub new_authority : Option Cert → Option Signer → Result AuthorityError Authority
new_authority none key = err cert_required
new_authority (some cert) none = err key_required
new_authority (some cert) (some key) = ok (record { cert = cert; key = key })

-- `NewSerialNumber`, from what `rand.Int` returned below 2^128 - 1
abbrev pub max_uint128 : ℕ
max_uint128 = 340282366920938463463374607431768211455

unfoldable pub new_serial_number : Result String ℕ → Result AuthorityError ℕ
new_serial_number (ok s) = ok (s + 1)
new_serial_number (err e) = err (lib_error e)

unfoldable pub determine_lifetime : ℤ → ℤ → ℤ → Result AuthorityError (ℤ × ℤ)
determine_lifetime now ttl expiration_cap =
    if not (ltb_ℤ now expiration_cap)
    then err expired
    else ok (
      now -ℤ svid_backdate_period,
      if ltb_ℤ expiration_cap (now +ℤ ttl) then expiration_cap else now +ℤ ttl,
    )

-- The zero ID has an empty text.
abbrev pub is_zero_id : SpiffeId → Bool
is_zero_id id = id.text =ₛ ""

module _ (ca : CaLib) where
  unfoldable pub get_subject_key_id : PublicKey → Result AuthorityError Bytes
  get_subject_key_id key = do
    encoded ← map_err lib_error (ca.marshal_pkix_public_key key)
    bits ← map_err lib_error (ca.unmarshal_key_bits encoded)
    ok (ca.sha1 bits)

  unfoldable pub create_certificate :
      Template → Option Cert → PublicKey → Signer → Result AuthorityError Cert
  create_certificate template parent pub_key key = do
    der ← map_err lib_error (ca.create_certificate template parent pub_key key)
    map_err lib_error (ca.parse_certificate der)

  unfoldable pub svid_template : Authority → SpiffeId → ℕ → (ℤ × ℤ) → Bytes → Template
  svid_template a id serial (not_before, not_after) key_id = record {
    serial_number = serial;
    uris = ca.id_url id ∷ [];
    country = "US" ∷ [];
    organization = "SPIRL" ∷ [];
    unique_id = some id;
    not_before = not_before;
    not_after = not_after;
    subject_key_id = key_id;
    authority_key_id = a.cert.subject_key_id;
    key_usage = 1;
    ext_key_usage = 1 ∷ 2 ∷ [];
    is_ca = false;
    basic_constraints_valid = true;
  }

  -- `MintX509SVID` at the time `now`, with what `rand.Int` returned.
  unfoldable pub mint_with_key :
      Authority → ℤ → Result String ℕ → SvidParams → PublicKey → Result AuthorityError (List Cert)
  mint_with_key a now random params key = do
    guard (not (leb_ℤ params.ttl (pos 0))) bad_ttl
    serial ← new_serial_number random
    lifetime ← determine_lifetime now params.ttl a.cert.not_after
    key_id ← get_subject_key_id key
    cert ←
        create_certificate (svid_template a params.spiffe_id serial lifetime key_id) (some a.cert)
          key a.key
    ok (cert ∷ [])

  unfoldable pub mint_x509_svid :
      Authority → ℤ → Result String ℕ → SvidParams → Result AuthorityError (List Cert)
  mint_x509_svid a now random params =
      if is_zero_id params.spiffe_id then err id_unset else elim params.public_key [
        | none ↦ err public_key_unset
        | some key ↦ mint_with_key a now random params key
      ]
