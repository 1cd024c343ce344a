-- ===== src/Tests/Fixtures.antt =====
-- A root and a leaf certificate, and libraries that stand for the parameters.
use spiffecli.Prelude.{
  ℕ, ◌+◌, ◌*◌, true, false, some, List, [], ◌∷◌, Result, ok, err, String, Bytes, ◌=ₛ◌, bytes_equal,
  if◌then◌else◌, codes,
}
use spiffecli.Prelude.Int.{ℤ, pos}
use spiffecli.Cert.{PublicKey, rsa_public, Uri, SpiffeId, Cert, X509Lib, Format}
use spiffecli.X509Authority.{second, Signer, SvidParams}

abbrev pub seconds : ℕ → ℤ
seconds n = pos (n * second)

abbrev pub key : PublicKey
key = rsa_public 2048 77 65537

abbrev pub root_key : PublicKey
root_key = rsa_public 2048 91 65537

abbrev pub root_signer : Signer
root_signer = record { public = root_key; handle = 1 }

abbrev pub leaf_signer : Signer
leaf_signer = record { public = key; handle = 2 }

abbrev pub id : SpiffeId
id = record { text = "spiffe://example.org/web"; trust_domain = "example.org"; path = "/web" }

abbrev pub leaf_uri : Uri
leaf_uri = record { scheme = "spiffe"; text = "spiffe://example.org/web" }

abbrev pub root_uri : Uri
root_uri = record { scheme = "https"; text = "example.org" }

abbrev pub root : Cert
root = record {
  raw = 1 ∷ [];
  raw_subject = 10 ∷ [];
  raw_issuer = 10 ∷ [];
  subject = codes "CN=root";
  issuer = codes "CN=root";
  serial = 1;
  subject_key_id = 5 ∷ [];
  authority_key_id = [];
  is_ca = true;
  basic_constraints_valid = true;
  key_usage = 0;
  ext_key_usage = [];
  unknown_ext_key_usage = [];
  uris = root_uri ∷ [];
  not_before = seconds 999;
  not_after = seconds 87400;
  public_key = root_key;
  signature_algorithm = "SHA256-RSA";
  dns_names = [];
  email_addresses = [];
  ip_addresses = [];
}

abbrev pub leaf : Cert
leaf = record {
  raw = 2 ∷ [];
  raw_subject = 20 ∷ [];
  raw_issuer = 10 ∷ [];
  subject = codes "CN=web";
  issuer = codes "CN=root";
  serial = 2;
  subject_key_id = 6 ∷ [];
  authority_key_id = 5 ∷ [];
  is_ca = false;
  basic_constraints_valid = true;
  key_usage = 1;
  ext_key_usage = 1 ∷ 2 ∷ [];
  unknown_ext_key_usage = [];
  uris = leaf_uri ∷ [];
  not_before = seconds 1990;
  not_after = seconds 5600;
  public_key = key;
  signature_algorithm = "SHA256-RSA";
  dns_names = [];
  email_addresses = [];
  ip_addresses = [];
}

abbrev pub both : List Cert
both = leaf ∷ root ∷ []

-- Injective on one byte.
abbrev pub digest : Bytes → ℕ
digest [] = 0
digest (x ∷ xs) = x + 1

abbrev pub from_uri : Uri → Result String SpiffeId
from_uri u =
    if u.scheme =ₛ "spiffe"
    then ok (record { text = u.text; trust_domain = "example.org"; path = "/web" })
    else err "scheme"

abbrev pub lib : X509Lib
lib = record {
  sha256 = digest;
  check_signature_from = λ c p. bytes_equal c.raw_issuer p.raw_subject;
  from_uri = from_uri;
  verify = λ c roots pool. ok ((c ∷ roots) ∷ []);
}

abbrev pub fmt : Format
fmt = record {
  decimal = λ n. n ∷ [];
  hex_digest = λ n. n ∷ [];
  hex = λ b. b;
  text16 = λ n. n ∷ [];
  rfc3339 = λ t. codes "2026";
}

abbrev pub params : SvidParams
params = record { spiffe_id = id; public_key = some key; ttl = seconds 3600 }
