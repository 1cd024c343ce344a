-- ===== src/Cert.antt =====
-- The values of the Go standard library and of go-spiffe that the program passes around: the fields
-- of an `x509.Certificate` that it reads, public keys, URIs and SPIFFE IDs. What those libraries
-- compute is not defined here: it is a field of `X509Lib`, a parameter of the code that calls it.
use spiffecli.Prelude.{ℕ, String, Bool, List, Result, Bytes}
use spiffecli.Prelude.Int.{ℤ}

-- `*rsa.PublicKey` has the bit length of its modulus, the modulus and the exponent;
-- `*ecdsa.PublicKey` has the bit size and the name of its curve, and its point.
pub data PublicKey : Type 0 where
  rsa_public : (bits n e : ℕ) → PublicKey
  ecdsa_public : (bit_size : ℕ) → (curve : String) → (x y : ℕ) → PublicKey
  ed25519_public : Bytes → PublicKey
  other_public : String → PublicKey

-- The parts of a `url.URL` that are read: its scheme and its text.
pub record Uri : Type 0 where
  pub scheme : String
  pub text : String

-- A `spiffeid.ID` by what its methods `String`, `TrustDomain` and `Path` return. The text of the
-- zero ID is empty.
pub record SpiffeId : Type 0 where
  pub text : String
  pub trust_domain : String
  pub path : String

-- An `x509.Certificate`. `subject` and `issuer` are the code points of `Subject.String()` and
-- `Issuer.String()`; times are nanoseconds since the zero `time.Time`.
pub record Cert : Type 0 where
  pub raw : Bytes
  pub raw_subject : Bytes
  pub raw_issuer : Bytes
  pub subject : List ℕ
  pub issuer : List ℕ
  pub serial : ℕ
  pub subject_key_id : Bytes
  pub authority_key_id : Bytes
  pub is_ca : Bool
  pub basic_constraints_valid : Bool
  pub key_usage : ℕ
  pub ext_key_usage : List ℕ
  pub unknown_ext_key_usage : List String
  pub uris : List Uri
  pub not_before : ℤ
  pub not_after : ℤ
  pub public_key : PublicKey
  pub signature_algorithm : String
  pub dns_names : List String
  pub email_addresses : List String
  pub ip_addresses : List String

-- What the code calls: `sha256.Sum256` (the digest as a number), `CheckSignatureFrom` of a child and
-- its parent (true when it returns nil), `spiffeid.FromURI`, and `Verify` of a leaf with a pool of
-- roots, a pool of intermediates and any extended key usage.
pub record X509Lib : Type 0 where
  pub sha256 : Bytes → ℕ
  pub check_signature_from : Cert → Cert → Bool
  pub from_uri : Uri → Result String SpiffeId
  pub verify : Cert → List Cert → List Cert → Result String (List (List Cert))

-- What the code calls to print values: `%d`, `%x` of a digest or of bytes, `Text(16)` of a serial
-- number, and `UTC().Format(time.RFC3339)`.
pub record Format : Type 0 where
  pub decimal : ℕ → List ℕ
  pub hex_digest : ℕ → List ℕ
  pub hex : Bytes → List ℕ
  pub text16 : ℕ → List ℕ
  pub rfc3339 : ℤ → List ℕ
