-- ===== src/X509Inspect/Svid/Conformance.antt =====
-- The check against the rules of the X.509-SVID standard.
use spiffecli.Prelude.{
  ℕ, ◌≡◌, ◌↔◌, ◌⊎◌, inl, inr, refl, Bool, true, false, not, List, [], ◌∷◌, ◌++◌, ok, String, ==_iff,
  arith, In, All, Result-cases, is_empty, one_of, one_of_iff, ◌=ₛ◌, ◌&&◌, ◌||◌,
}
use spiffecli.Prelude.Int.{◌<ℤ◌, ltb_ℤ, ltb_ℤ_iff}
use spiffecli.Cert.{Uri, SpiffeId, Cert, X509Lib}
use spiffecli.X509Inspect.Certificate.{has_bit, key_usage_entries, decode_entries, decode_key_usage}
use spiffecli.X509Inspect.Svid.{
  Reason, reason_if, is_allowed_eku, eku_reasons, oid_reasons, uri_reasons, svid_reasons,
  check_is_svid,
}

-- The rules, stated on the certificate. The key usages are read by their names.
pub record Conforms (lib : X509Lib) (cert : Cert) : Type 0 where
  pub uri : Uri
  pub id : SpiffeId
  pub one_uri : cert.uris ≡ uri ∷ []
  pub valid_uri : lib.from_uri uri ≡ ok id
  pub not_ca : cert.is_ca ≡ false
  pub constraints : cert.basic_constraints_valid ≡ true
  pub signs : In "digitalSignature" (decode_key_usage cert.key_usage)
  pub no_cert_sign : ¬ In "keyCertSign" (decode_key_usage cert.key_usage)
  pub no_crl_sign : ¬ In "cRLSign" (decode_key_usage cert.key_usage)
  pub ekus : All (λ eku. (eku ≡ 1) ⊎ (eku ≡ 2)) cert.ext_key_usage
  pub no_oids : cert.unknown_ext_key_usage ≡ []
  pub valid_for : cert.not_before <ℤ cert.not_after

append-eq-nil : {A : Type 0} (xs ys : List A) → (xs ++ ys ≡ []) ↔ ((xs ≡ []) × (ys ≡ []))
append-eq-nil [] ys = ground arith
append-eq-nil (x ∷ xs) ys = ground arith

is_empty_iff : {A : Type 0} (xs : List A) → (is_empty xs ≡ true) ↔ (xs ≡ [])
is_empty_iff [] = ground arith
is_empty_iff (x ∷ xs) = ground arith

eku_reasons-nil :
    (ekus : List ℕ) → (eku_reasons ekus ≡ []) ↔ All (λ eku. (eku ≡ 1) ⊎ (eku ≡ 2)) ekus
unfolding eku_reasons is_allowed_eku
eku_reasons-nil [] = (λ _. tt, λ _. refl)
eku_reasons-nil (e ∷ es) = ground (arith, eku_reasons-nil es, ==_iff e 1, ==_iff e 2)

oid_reasons-nil : (oids : List String) → (oid_reasons oids ≡ []) ↔ (oids ≡ [])
unfolding oid_reasons
oid_reasons-nil [] = ground arith
oid_reasons-nil (o ∷ os) = ground arith

-- The bit that stands for a name.
abbrev names_bit : String → ℕ → List (ℕ × String) → Bool
names_bit n usage [] = false
names_bit n usage ((bit, name) ∷ entries) =
    n =ₛ name && has_bit usage bit || names_bit n usage entries

one_of-decode_entries :
    (n : String) (usage : ℕ) (entries : List (ℕ × String))
    → one_of n (decode_entries usage entries) ≡ names_bit n usage entries
unfolding decode_entries
one_of-decode_entries n usage [] = refl
one_of-decode_entries n usage ((bit, name) ∷ entries) =
    ground (arith, one_of-decode_entries n usage entries)

In-decode_key_usage :
    (n : String) (usage : ℕ)
    → In n (decode_key_usage usage) ↔ (names_bit n usage key_usage_entries ≡ true)
unfolding decode_key_usage
In-decode_key_usage n usage = ground (
  arith,
  one_of-decode_entries n usage key_usage_entries,
  one_of_iff n (decode_entries usage key_usage_entries),
)

digital_signature_iff : (u : ℕ) → In "digitalSignature" (decode_key_usage u) ↔ (has_bit u 1 ≡ true)
digital_signature_iff u = ground (arith, In-decode_key_usage "digitalSignature" u)

key_cert_sign_iff : (u : ℕ) → In "keyCertSign" (decode_key_usage u) ↔ (has_bit u 32 ≡ true)
key_cert_sign_iff u = ground (arith, In-decode_key_usage "keyCertSign" u)

crl_sign_iff : (u : ℕ) → In "cRLSign" (decode_key_usage u) ↔ (has_bit u 64 ≡ true)
crl_sign_iff u = ground (arith, In-decode_key_usage "cRLSign" u)

reason_if-nil : (b : Bool) (r : Reason) → (reason_if b r ≡ []) ↔ (b ≡ false)
reason_if-nil b r = ground arith

-- The lists of reasons that are appended are all empty.
record NoReason (lib : X509Lib) (cert : Cert) : Type 0 where
  uri : uri_reasons lib cert.uris ≡ []
  not_ca : cert.is_ca ≡ false
  constraints : cert.basic_constraints_valid ≡ true
  signs : has_bit cert.key_usage 1 ≡ true
  no_cert_sign : has_bit cert.key_usage 32 ≡ false
  no_crl_sign : has_bit cert.key_usage 64 ≡ false
  ekus : eku_reasons cert.ext_key_usage ≡ []
  oids : oid_reasons cert.unknown_ext_key_usage ≡ []
  valid_for : ltb_ℤ cert.not_before cert.not_after ≡ true

not-eq-false : (b : Bool) → not b ≡ false → b ≡ true
not-eq-false b h = ground arith

svid_reasons-nil : (lib : X509Lib) (cert : Cert) → svid_reasons lib cert ≡ [] → NoReason lib cert
unfolding svid_reasons
svid_reasons-nil lib cert h0 =
    let (uri, h1) = (append-eq-nil (uri_reasons lib cert.uris) _).0 h0 in
    let (ca, h2) = (append-eq-nil _ _).0 h1 in
    let (bc, h3) = (append-eq-nil _ _).0 h2 in
    let (ds, h4) = (append-eq-nil _ _).0 h3 in
    let (cs, h5) = (append-eq-nil _ _).0 h4 in
    let (crl, h6) = (append-eq-nil _ _).0 h5 in
    let (ekus, h7) = (append-eq-nil _ _).0 h6 in
    let (oids, time) = (append-eq-nil _ _).0 h7 in
    record {
      uri = uri;
      not_ca = (reason_if-nil _ _).0 ca;
      constraints = not-eq-false cert.basic_constraints_valid ((reason_if-nil _ _).0 bc);
      signs = not-eq-false (has_bit cert.key_usage 1) ((reason_if-nil _ _).0 ds);
      no_cert_sign = (reason_if-nil _ _).0 cs;
      no_crl_sign = (reason_if-nil _ _).0 crl;
      ekus = ekus;
      oids = oids;
      valid_for = not-eq-false (ltb_ℤ cert.not_before cert.not_after) ((reason_if-nil _ _).0 time);
    }

svid_reasons_of_NoReason :
    (lib : X509Lib) (cert : Cert) → NoReason lib cert → svid_reasons lib cert ≡ []
unfolding svid_reasons
svid_reasons_of_NoReason lib cert h = rw (
  h.uri, h.not_ca, h.constraints, h.signs, h.no_cert_sign, h.no_crl_sign, h.ekus, h.oids,
  h.valid_for,
)

uri_reasons-nil :
    (lib : X509Lib) (uris : List Uri)
    → uri_reasons lib uris ≡ []
    → (u : Uri) × (id : SpiffeId) × (uris ≡ u ∷ []) × (lib.from_uri u ≡ ok id)
unfolding uri_reasons
uri_reasons-nil lib [] h = cc
uri_reasons-nil lib (u ∷ []) h = elim (Result-cases (lib.from_uri u)) [
  | inl (id, e) ↦ (u, id, refl, e)
  | inr (f, e) ↦ cc (rw (e, uri_reasons) at h)
]
uri_reasons-nil lib (u ∷ u' ∷ us) h = cc

uri_reasons_of_valid :
    (lib : X509Lib) (uris : List Uri) (u : Uri) (id : SpiffeId)
    → uris ≡ u ∷ []
    → lib.from_uri u ≡ ok id
    → uri_reasons lib uris ≡ []
unfolding uri_reasons
uri_reasons_of_valid lib uris u id e k = rw (e, k, uri_reasons)

-- `checkIsSvid` accepts a certificate exactly when it has one URI and that is a valid SPIFFE ID, is no
-- CA and has valid basic constraints, is for digital signatures and neither for signing certificates
-- nor revocation lists, has only the extended key usages of client and server and no unknown ones,
-- and starts before it ends.
pub check_is_svid_iff :
    (lib : X509Lib) (cert : Cert) → ((check_is_svid lib cert).0 ≡ true) ↔ Conforms lib cert
unfolding check_is_svid
check_is_svid_iff lib cert = (
  λ h.
      let r = svid_reasons-nil lib cert ((is_empty_iff (svid_reasons lib cert)).0 h) in
      let (u, id, one, valid) = uri_reasons-nil lib cert.uris r.uri in
      record {
        uri = u;
        id = id;
        one_uri = one;
        valid_uri = valid;
        not_ca = r.not_ca;
        constraints = r.constraints;
        signs = (digital_signature_iff cert.key_usage).1 r.signs;
        no_cert_sign = λ k. cc ((key_cert_sign_iff cert.key_usage).0 k, r.no_cert_sign);
        no_crl_sign = λ k. cc ((crl_sign_iff cert.key_usage).0 k, r.no_crl_sign);
        ekus = (eku_reasons-nil cert.ext_key_usage).0 r.ekus;
        no_oids = (oid_reasons-nil cert.unknown_ext_key_usage).0 r.oids;
        valid_for = (ltb_ℤ_iff cert.not_before cert.not_after).0 r.valid_for;
      },
  λ c. (is_empty_iff (svid_reasons lib cert)).1 (
      svid_reasons_of_NoReason lib cert (record {
        uri = uri_reasons_of_valid lib cert.uris c.uri c.id c.one_uri c.valid_uri;
        not_ca = c.not_ca;
        constraints = c.constraints;
        signs = (digital_signature_iff cert.key_usage).0 c.signs;
        no_cert_sign = ground (arith, key_cert_sign_iff cert.key_usage, c.no_cert_sign);
        no_crl_sign = ground (arith, crl_sign_iff cert.key_usage, c.no_crl_sign);
        ekus = (eku_reasons-nil cert.ext_key_usage).1 c.ekus;
        oids = (oid_reasons-nil cert.unknown_ext_key_usage).1 c.no_oids;
        valid_for = (ltb_ℤ_iff cert.not_before cert.not_after).1 c.valid_for;
      })),
)
