-- ===== src/X509Inspect/Certificate.antt =====
-- certificate.go: the decoded fields of a certificate. The key usage bits and the extended key
-- usages are Go's numbers for them.
pub mod Identity
use Prim.Native.String
use spiffecli.Prelude.{
  ℕ, Bool, true, false, not, ◌&&◌, Option, none, some, List, [], ◌∷◌, ◌++◌, Result, ok, err, String,
  ◌==◌, lookup, if◌then◌else◌, ◌=ₛ◌, codes, is_empty, bit_and, map, length,
}
use spiffecli.Cert.{Uri, SpiffeId, Cert, X509Lib, Format}
use spiffecli.X509Inspect.Tree.{key_algorithm_string}

abbrev pub key_usage_entries : List (ℕ × String)
key_usage_entries =
    (1, "digitalSignature")
    ∷ (2, "contentCommitment")
    ∷ (4, "keyEncipherment")
    ∷ (8, "dataEncipherment")
    ∷ (16, "keyAgreement")
    ∷ (32, "keyCertSign")
    ∷ (64, "cRLSign")
    ∷ (128, "encipherOnly")
    ∷ (256, "decipherOnly")
    ∷ []

abbrev pub ext_key_usage_names : List (ℕ × String)
ext_key_usage_names =
    (0, "any")
    ∷ (1, "serverAuth")
    ∷ (2, "clientAuth")
    ∷ (3, "codeSigning")
    ∷ (4, "emailProtection")
    ∷ (5, "ipsecEndSystem")
    ∷ (6, "ipsecTunnel")
    ∷ (7, "ipsecUser")
    ∷ (8, "timeStamping")
    ∷ (9, "ocspSigning")
    ∷ (10, "msServerGatedCrypto")
    ∷ (11, "nsServerGatedCrypto")
    ∷ (12, "msCommercialCodeSigning")
    ∷ (13, "msKernelCodeSigning")
    ∷ []

-- `usage & bit != 0`
abbrev pub has_bit : ℕ → ℕ → Bool
has_bit usage bit = not (bit_and usage bit == 0)

unfoldable pub decode_entries : ℕ → List (ℕ × String) → List String
decode_entries usage [] = []
decode_entries usage ((bit, name) ∷ entries) =
    let rest = decode_entries usage entries in if has_bit usage bit then name ∷ rest else rest

unfoldable pub decode_key_usage : ℕ → List String
decode_key_usage usage = decode_entries usage key_usage_entries

-- A name of an extended key usage, or `unknown(n)`.
pub data EkuName : Type 0 where
  known : String → EkuName
  unknown : ℕ → EkuName

unfoldable pub decode_eku : ℕ → EkuName
decode_eku eku = elim (lookup eku ext_key_usage_names) [
  | some name ↦ known name
  | none ↦ unknown eku
]

unfoldable pub decode_ext_key_usage : List ℕ → List EkuName
decode_ext_key_usage [] = []
decode_ext_key_usage (eku ∷ ekus) = decode_eku eku ∷ decode_ext_key_usage ekus

-- What `certToInfo` finds in the URI SANs: the matches, and the first error of a spiffe URI.
pub record Matches : Type 0 where
  pub spiffe_matches : List SpiffeId
  pub first_parse_err : Option String

-- The SPIFFE fields of a `CertificateInfo`; `spiffe_id_error` is empty, "MULTIPLE_SPIFFE_IDS" or
-- "INVALID_SPIFFE_URI".
pub record SpiffeInfo : Type 0 where
  pub spiffe_id : String
  pub trust_domain : String
  pub path : String
  pub spiffe_id_error : String
  pub spiffe_id_error_detail : String
  pub spiffe_id_library_error : String

abbrev pub no_spiffe_info : SpiffeInfo
no_spiffe_info = record {
  spiffe_id = "";
  trust_domain = "";
  path = "";
  spiffe_id_error = "";
  spiffe_id_error_detail = "";
  spiffe_id_library_error = "";
}

-- the `switch len(spiffeMatches)`
unfoldable pub classify : Matches → SpiffeInfo
classify m = elim m.spiffe_matches [
  | sid ∷ [] ↦ record no_spiffe_info {
    spiffe_id = sid.text;
    trust_domain = sid.trust_domain;
    path = sid.path;
  }
  | sid ∷ sid' ∷ sids ↦ record no_spiffe_info {
    spiffe_id_error = "MULTIPLE_SPIFFE_IDS";
    spiffe_id_error_detail = "certificate contains multiple SPIFFE IDs";
  }
  | [] ↦ elim m.first_parse_err [
    | none ↦ no_spiffe_info
    | some e ↦ record no_spiffe_info {
      spiffe_id_error = "INVALID_SPIFFE_URI";
      spiffe_id_error_detail = "URI is not a valid SPIFFE ID";
      spiffe_id_library_error = e;
    }
  ]
]

pub record CertificateInfo : Type 0 where
  pub spiffe : SpiffeInfo
  pub subject : List ℕ
  pub issuer : List ℕ
  pub serial : List ℕ
  pub not_before : List ℕ
  pub not_after : List ℕ
  pub key_algorithm : List ℕ
  pub signature_algorithm : String
  pub key_usage : List String
  pub extended_key_usage : List EkuName
  pub is_ca : Bool
  pub subject_key_id : List ℕ
  pub authority_key_id : List ℕ
  pub sha256_fingerprint : List ℕ
  pub dns_names : List String
  pub ip_addresses : List String
  pub email_addresses : List String
  pub uris : List String

-- the text of each URI
abbrev pub uri_texts : List Uri → List String
uri_texts [] = []
uri_texts (u ∷ us) = u.text ∷ uri_texts us

module _ (lib : X509Lib) where
  -- one round of the loop over `cert.URIs`
  unfoldable pub match_uri : Matches → Uri → Matches
  match_uri m uri = elim (lib.from_uri uri) [
    | ok sid ↦ record m { spiffe_matches = m.spiffe_matches ++ sid ∷ [] }
    | err e ↦ elim m.first_parse_err [
      | some first ↦ m
      | none ↦ if uri.scheme =ₛ "spiffe" then record m { first_parse_err = some e } else m
    ]
  ]

  unfoldable pub match_uris : Matches → List Uri → Matches
  match_uris m [] = m
  match_uris m (uri ∷ uris) = match_uris (match_uri m uri) uris

  unfoldable pub spiffe_info : Cert → SpiffeInfo
  spiffe_info cert =
      classify (match_uris (record { spiffe_matches = []; first_parse_err = none }) cert.uris)

  unfoldable pub cert_to_info : Format → Cert → CertificateInfo
  cert_to_info fmt cert = record {
    spiffe = spiffe_info cert;
    subject = cert.subject;
    issuer = cert.issuer;
    serial = fmt.text16 cert.serial;
    not_before = fmt.rfc3339 cert.not_before;
    not_after = fmt.rfc3339 cert.not_after;
    key_algorithm = key_algorithm_string fmt cert.public_key;
    signature_algorithm = cert.signature_algorithm;
    key_usage = decode_key_usage cert.key_usage;
    extended_key_usage = decode_ext_key_usage cert.ext_key_usage;
    is_ca = cert.is_ca;
    subject_key_id = if is_empty cert.subject_key_id then [] else fmt.hex cert.subject_key_id;
    authority_key_id = if is_empty cert.authority_key_id then [] else fmt.hex cert.authority_key_id;
    sha256_fingerprint = fmt.hex_digest (lib.sha256 cert.raw);
    dns_names = cert.dns_names;
    ip_addresses = cert.ip_addresses;
    email_addresses = cert.email_addresses;
    uris = uri_texts cert.uris;
  }
