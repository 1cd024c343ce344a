-- ===== src/X509Authority/Mint.antt =====
-- A minted SVID passes the inspector's check and stays within its authority's lifetime.
use spiffecli.Prelude.{
  ◌<◌, ℕ, ◌≡◌, ◌≢◌, inl, inr, refl, true, not, Option, some, List, [], ◌∷◌, Result, ok, >>=-eq-ok,
  map_err, guard, map_err-eq-ok, String, Bytes, arith, Bool-cases, Option-cases, ap, ◌=ₛ◌, =ₛ_iff,
  Bool, All, ◌⊎◌, subst,
}
use spiffecli.Prelude.Int.{ℤ, pos, ◌+ℤ◌, ◌≤ℤ◌, ◌<ℤ◌, leb_ℤ, pos_part, neg_part, +ℤ_parts}
use spiffecli.Cert.{Uri, SpiffeId, PublicKey, Cert, X509Lib}
use spiffecli.X509Inspect.Svid.{check_is_svid}
use spiffecli.X509Inspect.Svid.Conformance.{check_is_svid_iff}
use spiffecli.X509Inspect.Certificate.{decode_key_usage, decode_entries, has_bit}
use spiffecli.X509Authority.{
  second, Template, Signer, CaLib, bad_ttl, lib_error, SvidParams, Authority, determine_lifetime,
  new_serial_number, get_subject_key_id, create_certificate, svid_template, mint_with_key,
  mint_x509_svid,
}
use spiffecli.X509Authority.Lifetime.{determine_lifetime_correct}

-- An encoded time is cut to its second.
abbrev pub IsCutTo : ℤ → ℤ → Type 0
IsCutTo t cut = (cut ≤ℤ t) × (t <ℤ cut +ℤ pos second)

-- A CA certificate for a key that may sign with it.
pub record CanIssue (cert : Cert) (key : Signer) : Type 0 where
  pub is_ca : cert.is_ca ≡ true
  pub constraints : cert.basic_constraints_valid ≡ true
  pub usage : (cert.key_usage ≡ 0) ⊎ (has_bit cert.key_usage 32 ≡ true)
  pub own_key : cert.public_key ≡ key.public
  pub named : cert.raw_subject ≢ []

-- A certificate holds what its template says, for the URLs that are read back as they were written. The
-- key ID of its authority is that of its parent, or where this does not count that of the template.
pub record Carries (is_url : Uri → Bool) (t : Template) (parent : Option Cert) (key : PublicKey)
    (cert : Cert) : Type 0 where
  pub uris : All (λ u. is_url u ≡ true) t.uris → cert.uris ≡ t.uris
  pub not_before : IsCutTo t.not_before cert.not_before
  pub not_after : IsCutTo t.not_after cert.not_after
  pub key_usage : t.key_usage < 512 → cert.key_usage ≡ t.key_usage
  pub ext_key_usage : cert.ext_key_usage ≡ t.ext_key_usage
  pub unknown_ext_key_usage : cert.unknown_ext_key_usage ≡ []
  pub is_ca : t.basic_constraints_valid ≡ true → cert.is_ca ≡ t.is_ca
  pub basic_constraints_valid : cert.basic_constraints_valid ≡ t.basic_constraints_valid
  pub public_key : cert.public_key ≡ key
  pub authority_key_id :
      (cert.authority_key_id ≡ t.authority_key_id)
      ⊎ ((p : Cert) × (parent ≡ some p) × (cert.authority_key_id ≡ p.subject_key_id))
  pub named : cert.raw_subject ≢ []

-- What is documented of the libraries: a certificate that was created parses back with the fields of
-- its template, and where its parent may issue with the signer, it has the parent's subject as its
-- issuer and a signature that `CheckSignatureFrom` accepts. The URL of an ID that `FromURI` has parsed
-- parses to this ID, and is read back as it was written.
pub record IsDocumented (lib : X509Lib) (ca : CaLib) : Type 0 where
  pub is_url : Uri → Bool
  pub carries :
      (t : Template) (parent : Option Cert) (key : PublicKey) (signer : Signer) (der : Bytes)
      (cert : Cert)
      → ca.create_certificate t parent key signer ≡ ok der
      → ca.parse_certificate der ≡ ok cert
      → Carries is_url t parent key cert
  pub signed :
      (t : Template) (parent : Cert) (key : PublicKey) (signer : Signer) (der : Bytes) (cert : Cert)
      → ca.create_certificate t (some parent) key signer ≡ ok der
      → ca.parse_certificate der ≡ ok cert
      → CanIssue parent signer
      → (cert.raw_issuer ≡ parent.raw_subject) × (lib.check_signature_from cert parent ≡ true)
  pub url :
      (u : Uri) (id : SpiffeId)
      → lib.from_uri u ≡ ok id
      → (lib.from_uri (ca.id_url id) ≡ ok id) × (is_url (ca.id_url id) ≡ true)

create_certificate-der :
    (ca : CaLib) (t : Template) (parent : Option Cert) (key : PublicKey) (signer : Signer)
    (cert : Cert)
    → create_certificate ca t parent key signer ≡ ok cert
    → (der : Bytes) × (ca.create_certificate t parent key signer ≡ ok der)
      × (ca.parse_certificate der ≡ ok cert)
unfolding create_certificate
create_certificate-der ca t parent key signer cert h =
    let (der, made, h') =
      >>=-eq-ok (map_err lib_error (ca.create_certificate t parent key signer)) _ h in
    (
      der,
      map_err-eq-ok lib_error (ca.create_certificate t parent key signer) der made,
      map_err-eq-ok lib_error (ca.parse_certificate der) cert h',
    )

pub create_certificate-Carries :
    (lib : X509Lib) (ca : CaLib) (doc : IsDocumented lib ca) (t : Template) (parent : Option Cert)
    (key : PublicKey) (signer : Signer) (cert : Cert)
    → create_certificate ca t parent key signer ≡ ok cert
    → Carries doc.is_url t parent key cert
create_certificate-Carries lib ca doc t parent key signer cert h =
    let (der, made, parsed) = create_certificate-der ca t parent key signer cert h in
    doc.carries t parent key signer der cert made parsed

-- The successful path through `MintX509SVID`.
record Minted (ca : CaLib) (a : Authority) (now : ℤ) (params : SvidParams) (cert : Cert)
    : Type 0 where
  named : params.spiffe_id.text ≢ ""
  key : PublicKey
  given : params.public_key ≡ some key
  positive : pos 0 <ℤ params.ttl
  serial : ℕ
  nb : ℤ
  na : ℤ
  lifetime : determine_lifetime now params.ttl a.cert.not_after ≡ ok (nb, na)
  key_id : Bytes
  created :
      create_certificate ca
        (svid_template ca a params.spiffe_id serial (nb, na) key_id)
        (some a.cert)
        key
        a.key
      ≡ ok cert

mint_with_key-Minted :
    (ca : CaLib) (a : Authority) (now : ℤ) (random : Result String ℕ) (params : SvidParams)
    (key : PublicKey) (certs : List Cert)
    → params.spiffe_id.text ≢ ""
    → params.public_key ≡ some key
    → mint_with_key ca a now random params key ≡ ok certs
    → (cert : Cert) × (certs ≡ cert ∷ []) × Minted ca a now params cert
unfolding mint_with_key
mint_with_key-Minted ca a now random params key certs named given h0 =
    let (u, positive, h1) = >>=-eq-ok (guard (not (leb_ℤ params.ttl (pos 0))) bad_ttl) _ h0 in
    let (serial, _, h2) = >>=-eq-ok (new_serial_number random) _ h1 in
    let ((nb, na), lifetime, h3) =
      >>=-eq-ok (determine_lifetime now params.ttl a.cert.not_after) _ h2 in
    let (key_id, _, h4) = >>=-eq-ok (get_subject_key_id ca key) _ h3 in
    let (cert, created, h5) =
      >>=-eq-ok
        (create_certificate ca (svid_template ca a params.spiffe_id serial (nb, na) key_id)
          (some a.cert) key a.key)
        _ h4 in
    (
      cert,
      ground (arith, h5),
      record {
        named = named;
        key = key;
        given = given;
        positive = ground (arith, positive);
        serial = serial;
        nb = nb;
        na = na;
        lifetime = lifetime;
        key_id = key_id;
        created = created;
      },
    )

mint_x509_svid-Minted :
    (ca : CaLib) (a : Authority) (now : ℤ) (random : Result String ℕ) (params : SvidParams)
    (certs : List Cert)
    → mint_x509_svid ca a now random params ≡ ok certs
    → (cert : Cert) × (certs ≡ cert ∷ []) × Minted ca a now params cert
unfolding mint_x509_svid
mint_x509_svid-Minted ca a now random params certs h =
    elim (Bool-cases (params.spiffe_id.text =ₛ "")) [
      | inl zero_id ↦ cc (rw (zero_id, mint_x509_svid) at h)
      | inr named ↦ elim (Option-cases params.public_key) [
        | inl unset ↦ cc (rw (named, unset) at h)
        | inr (key, given) ↦
            mint_with_key-Minted ca a now random params key certs
              (λ e. cc ((=ₛ_iff params.spiffe_id.text "").1 e, named)) given
              (rw (named, given) at h)
      ]
    ]

-- What a minted certificate promises.
pub record IsMinted (lib : X509Lib) (a : Authority) (now : ℤ) (params : SvidParams) (cert : Cert)
    : Type 0 where
  pub accepted : (check_is_svid lib cert).0 ≡ true
  pub identity : (u : Uri) × (cert.uris ≡ u ∷ []) × (lib.from_uri u ≡ ok params.spiffe_id)
  pub for_key : params.public_key ≡ some cert.public_key
  pub alive : now <ℤ cert.not_after +ℤ pos second
  pub capped : cert.not_after ≤ℤ a.cert.not_after
  pub within_ttl : cert.not_after ≤ℤ now +ℤ params.ttl

svid_key_usage : decode_key_usage 1 ≡ "digitalSignature" ∷ []
unfolding decode_key_usage decode_entries
svid_key_usage = refl

Minted-Conforms :
    (lib : X509Lib) (ca : CaLib) (doc : IsDocumented lib ca) (a : Authority) (now : ℤ)
    (params : SvidParams) (cert : Cert) (origin : Uri)
    → lib.from_uri origin ≡ ok params.spiffe_id
    → Minted ca a now params cert
    → IsMinted lib a now params cert
unfolding svid_template
Minted-Conforms lib ca doc a now params cert origin valid m =
    let t = svid_template ca a params.spiffe_id m.serial (m.nb, m.na) m.key_id in
    let c = create_certificate-Carries lib ca doc t (some a.cert) m.key a.key cert m.created in
    let life =
      (determine_lifetime_correct now params.ttl a.cert.not_after m.positive).1 m.nb m.na
        m.lifetime in
    let (url, written) = doc.url origin params.spiffe_id valid in
    let uris = c.uris (written, tt) in
    record {
      accepted = (check_is_svid_iff lib cert).1 (record {
        uri = ca.id_url params.spiffe_id;
        id = params.spiffe_id;
        one_uri = uris;
        valid_uri = url;
        not_ca = c.is_ca refl;
        constraints = c.basic_constraints_valid;
        signs = rw (c.key_usage (omega arith), svid_key_usage) (inl refl);
        no_cert_sign =
            rw (c.key_usage (omega arith), svid_key_usage)
              (ground (arith, =ₛ_iff "keyCertSign" "digitalSignature"));
        no_crl_sign =
            rw (c.key_usage (omega arith), svid_key_usage)
              (ground (arith, =ₛ_iff "cRLSign" "digitalSignature"));
        ekus = rw c.ext_key_usage (inl refl, (inr refl, tt));
        no_oids = c.unknown_ext_key_usage;
        valid_for = omega (
          arith,
          +ℤ_parts,
          life.future,
          c.not_before,
          c.not_after,
          ap pos_part life.backdated,
          ap neg_part life.backdated,
        );
      });
      identity = (ca.id_url params.spiffe_id, uris, url);
      for_key = rw c.public_key m.given;
      alive = omega (arith, life.future, c.not_after);
      capped = omega (arith, life.capped, c.not_after);
      within_ttl = omega (arith, life.within_ttl, c.not_after);
    }

-- An SVID that `MintX509SVID` returns for an ID that `FromURI` has parsed is a single certificate. It
-- passes the inspector's X.509-SVID check, its only URI parses to the requested ID, it is for the given
-- key, and it ends after now (to the second), at the latest with the TTL and with the authority's
-- certificate.
pub mint_x509_svid-IsMinted :
    (lib : X509Lib) (ca : CaLib) (doc : IsDocumented lib ca) (a : Authority) (now : ℤ)
    (random : Result String ℕ) (params : SvidParams) (certs : List Cert) (origin : Uri)
    → lib.from_uri origin ≡ ok params.spiffe_id
    → mint_x509_svid ca a now random params ≡ ok certs
    → (cert : Cert) × (certs ≡ cert ∷ []) × IsMinted lib a now params cert
mint_x509_svid-IsMinted lib ca doc a now random params certs origin valid h =
    let (cert, one, m) = mint_x509_svid-Minted ca a now random params certs h in
    (cert, one, Minted-Conforms lib ca doc a now params cert origin valid m)

-- An authority that can issue signs what it mints.
pub mint_x509_svid-signed :
    (lib : X509Lib) (ca : CaLib) (doc : IsDocumented lib ca) (a : Authority) (now : ℤ)
    (random : Result String ℕ) (params : SvidParams) (cert : Cert)
    → CanIssue a.cert a.key
    → mint_x509_svid ca a now random params ≡ ok (cert ∷ [])
    → (cert.raw_issuer ≡ a.cert.raw_subject) × (lib.check_signature_from cert a.cert ≡ true)
mint_x509_svid-signed lib ca doc a now random params cert can h =
    let (c, one, m) = mint_x509_svid-Minted ca a now random params (cert ∷ []) h in
    let t = svid_template ca a params.spiffe_id m.serial (m.nb, m.na) m.key_id in
    let (der, made, parsed) = create_certificate-der ca t (some a.cert) m.key a.key c m.created in
    let same : c ≡ cert = ground (arith, one) in
    subst (λ x. (x.raw_issuer ≡ a.cert.raw_subject) × (lib.check_signature_from x a.cert ≡ true))
      same (doc.signed t a.cert m.key a.key der c made parsed can)

-- A minting that succeeds gives one certificate.
pub mint_x509_svid-one :
    (ca : CaLib) (a : Authority) (now : ℤ) (random : Result String ℕ) (params : SvidParams)
    (certs : List Cert)
    → mint_x509_svid ca a now random params ≡ ok certs
    → (cert : Cert) × (certs ≡ cert ∷ [])
mint_x509_svid-one ca a now random params certs h =
    let (cert, one, _) = mint_x509_svid-Minted ca a now random params certs h in (cert, one)
