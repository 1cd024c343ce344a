-- ===== src/X509Verify/Sources.antt =====
-- Which chain and which trust store a verification uses.
use spiffecli.Prelude.{
  none, some, [], ◌∷◌, Result, subst, sym, ◌∙◌, =ₛ_iff, if◌then◌else◌, ◌+◌, ◌≡◌, ◌⊎◌, inl, inr,
  refl, Bool, Bool-cases, true, false, not, ltb, Option, List, Result-cases, ok, err, >>=-eq-ok,
  guard, guard-eq-ok, map_err, map_err-eq-ok, String, ◌=ₛ◌, arith,
}
use spiffecli.Cert.{Cert}
use spiffecli.X509Verify.Leaf.{IsSplit, extract_leaf_and_intermediates_correct}
use spiffecli.X509Verify.{
  Verifier, Url, VerifyError, lib_error, bad_path, no_source, many_sources, Files, VerifyLib,
  validate_options, get_certificate_chain, trust_roots, parse_ca_bundle_from_file,
  parse_remote_bundle, root_program, verify_certificate, ca_flags_set, flag, pre_run, verify_x509,
  read_chain, read_chain_file, read_certificates_from_file, extract_leaf_and_intermediates,
}

-- The one trust store that the flags name, and its certificates.
pub data IsSource (lib : VerifyLib) (files : Files) (v : Verifier) : List Cert → Type 0 where
  bundle :
      (roots : List Cert)
      → (v.ca_bundle =ₛ "") ≡ false
      → v.system_bundle ≡ false
      → (v.root_program =ₛ "") ≡ true
      → parse_ca_bundle_from_file lib files v.ca_bundle v.ca_password v.ca_format ≡ ok roots
      → IsSource lib files v roots
  system :
      (roots : List Cert)
      → (v.ca_bundle =ₛ "") ≡ true
      → v.system_bundle ≡ true
      → (v.root_program =ₛ "") ≡ true
      → lib.system_cert_pool ≡ ok roots
      → IsSource lib files v roots
  program :
      (roots : List Cert)
      → (v.ca_bundle =ₛ "") ≡ true
      → v.system_bundle ≡ false
      → (v.root_program =ₛ "") ≡ false
      → parse_remote_bundle lib files (root_program v.root_program) ≡ ok roots
      → IsSource lib files v roots

-- The certificates at the location of the verifier: those of the peer of an https URL, else those of a
-- file.
pub data IsRead (lib : VerifyLib) (files : Files) (v : Verifier) (u : Url)
    : List Cert → Type 0 where
  peer :
      (certs : List Cert)
      → u.scheme ≡ "https"
      → lib.peer_certificates u ≡ ok certs
      → IsRead lib files v u certs
  local :
      (certs : List Cert)
      → (u.scheme ≡ "file") ⊎ (u.scheme ≡ "")
      → read_certificates_from_file lib files v.certificate v.format v.password ≡ ok certs
      → IsRead lib files v u certs

-- A chain is its leaf alone, without intermediates, or has the others as intermediates.
pub data IsChainOf (leaf : Cert) : Option (List Cert) → List Cert → Type 0 where
  alone : IsChainOf leaf none (leaf ∷ [])
  split :
      (c d : Cert) (cs rest : List Cert)
      → IsSplit leaf (c ∷ d ∷ cs) rest
      → IsChainOf leaf (some rest) (c ∷ d ∷ cs)

-- A successful verification.
pub record IsVerified (lib : VerifyLib) (files : Files) (v : Verifier) : Type 0 where
  pub leaf : Cert
  pub intermediates : Option (List Cert)
  pub roots : List Cert
  pub paths : List (List Cert)
  pub url : Url
  pub parsed : lib.parse_url v.certificate ≡ ok url
  pub chain : List Cert
  pub read : IsRead lib files v url chain
  pub taken : IsChainOf leaf intermediates chain
  pub source : IsSource lib files v roots
  pub verified : lib.verify leaf roots intermediates ≡ ok paths

-- The count of the flags is one in three of the eight cases.
one_flag :
    (v : Verifier) (u : Unit {0})
    → pre_run v ≡ ok u
    → ((v.ca_bundle =ₛ "" ≡ false) × (v.system_bundle ≡ false) × (v.root_program =ₛ "" ≡ true))
      ⊎ ((v.ca_bundle =ₛ "" ≡ true) × (v.system_bundle ≡ true) × (v.root_program =ₛ "" ≡ true))
      ⊎ ((v.ca_bundle =ₛ "" ≡ true) × (v.system_bundle ≡ false) × (v.root_program =ₛ "" ≡ false))
unfolding pre_run ca_flags_set
one_flag v u h =
    let (u1, some_flag, h1) = >>=-eq-ok (guard (not (ltb (ca_flags_set v) 1)) no_source) _ h in
    let few = guard-eq-ok (not (ltb 1 (ca_flags_set v))) many_sources u h1 in
    let least = guard-eq-ok (not (ltb (ca_flags_set v) 1)) no_source u1 some_flag in
    count (v.ca_bundle =ₛ "") v.system_bundle (v.root_program =ₛ "") least few
  where
    count :
        (a b c : Bool)
        → not (ltb (flag (not a) + flag b + flag (not c)) 1) ≡ true
        → not (ltb 1 (flag (not a) + flag b + flag (not c))) ≡ true
        → ((a ≡ false) × (b ≡ false) × (c ≡ true))
          ⊎ ((a ≡ true) × (b ≡ true) × (c ≡ true))
          ⊎ ((a ≡ true) × (b ≡ false) × (c ≡ false))
    count a b c h k = ground arith

trust_roots-IsSource :
    (lib : VerifyLib) (files : Files) (v : Verifier) (u : Unit {0}) (roots : List Cert)
    → pre_run v ≡ ok u
    → trust_roots lib files v ≡ ok roots
    → IsSource lib files v roots
unfolding trust_roots
trust_roots-IsSource lib files v u roots one trusted = elim (one_flag v u one) [
  | inl (a, b, c) ↦ bundle roots a b c (rw (a, trust_roots) at trusted)
  | inr (inl (a, b, c)) ↦
      system roots a b c
        (map_err-eq-ok lib_error lib.system_cert_pool roots (rw (a, b, trust_roots) at trusted))
  | inr (inr (a, b, c)) ↦ program roots a b c (rw (a, b, trust_roots) at trusted)
]

read_chain_file-certificates :
    (lib : VerifyLib) (files : Files) (v : Verifier) (u : Url) (certs : List Cert)
    → read_chain_file lib files v u ≡ ok certs
    → read_certificates_from_file lib files v.certificate v.format v.password ≡ ok certs
unfolding read_chain_file
read_chain_file-certificates lib files v u certs h =
    let (clean, _, h1) =
      >>=-eq-ok (map_err lib_error (lib.abs (if u.scheme =ₛ "file" then u.path else v.certificate)))
        _ h in
    let (t, _, h2) = >>=-eq-ok (guard (lib.is_file_path clean) (bad_path clean)) _ h1 in h2

read_chain-IsRead :
    (lib : VerifyLib) (files : Files) (v : Verifier) (u : Url) (certs : List Cert)
    → read_chain lib files v u ≡ ok certs
    → IsRead lib files v u certs
unfolding read_chain
read_chain-IsRead lib files v u certs h = elim (Bool-cases (u.scheme =ₛ "https")) [
  | inl https ↦
      peer certs ((=ₛ_iff u.scheme "https").0 https)
        (map_err-eq-ok lib_error (lib.peer_certificates u) certs (rw (https, read_chain) at h))
  | inr a ↦ elim (Bool-cases (u.scheme =ₛ "file")) [
    | inl is_file ↦
        local certs (inl ((=ₛ_iff u.scheme "file").0 is_file))
          (read_chain_file-certificates lib files v u certs (rw (a, is_file, read_chain) at h))
    | inr b ↦ elim (Bool-cases (u.scheme =ₛ "")) [
      | inl bare ↦
          local certs (inr ((=ₛ_iff u.scheme "").0 bare))
            (read_chain_file-certificates lib files v u certs (rw (a, b, bare, read_chain) at h))
      | inr c ↦ cc (rw (a, b, c, read_chain) at h)
    ]
  ]
]

pair_inj :
    (a b : Cert × Option (List Cert))
    → ◌≡◌ {A = Result VerifyError (Cert × Option (List Cert))} (ok a) (ok b)
    → a ≡ b
pair_inj a b h = cc

extract-IsChainOf :
    (certs : List Cert) (leaf : Cert) (intermediates : Option (List Cert))
    → extract_leaf_and_intermediates certs ≡ ok (leaf, intermediates)
    → IsChainOf leaf intermediates certs
unfolding extract_leaf_and_intermediates
extract-IsChainOf [] leaf intermediates h = cc
extract-IsChainOf (c ∷ []) leaf intermediates h =
    subst (λ p. IsChainOf p.0 p.1 (c ∷ [])) (pair_inj (c, none) (leaf, intermediates) h) alone
extract-IsChainOf (c ∷ d ∷ cs) leaf intermediates h =
    elim (extract_leaf_and_intermediates_correct c d cs) [
      | inl (_, failed) ↦ cc (failed, h)
      | inr (l, rest, s, found) ↦
          subst (λ p. IsChainOf p.0 p.1 (c ∷ d ∷ cs))
            (pair_inj (l, some rest) (leaf, intermediates) (sym found ∙ h)) (split c d cs rest s)
    ]

-- When `verify x509` succeeds, exactly one of the three trust stores was named by the flags. The chain
-- was read from the peer of an https URL or else from the given file, and a leaf of it was verified
-- against the certificates of that store: a single certificate without intermediates; of more, the first
-- that is not a CA certificate, with all the others in order as intermediates.
pub verify_x509-IsVerified :
    (lib : VerifyLib) (files : Files) (v : Verifier) (printed : Option String)
    → verify_x509 lib files v ≡ ok printed
    → IsVerified lib files v
unfolding verify_x509 verify_certificate get_certificate_chain
verify_x509-IsVerified lib files v printed h =
    let (u, one, h1) = >>=-eq-ok (pre_run v) _ h in
    let (path, done, _) = >>=-eq-ok (verify_certificate lib files v) _ h1 in
    let (u', _, h2) = >>=-eq-ok (validate_options v) _ done in
    let ((leaf, intermediates), got, h3) = >>=-eq-ok (get_certificate_chain lib files v) _ h2 in
    let (loc, parsed, got1) = >>=-eq-ok (map_err lib_error (lib.parse_url v.certificate)) _ got in
    let (certs, read, got2) = >>=-eq-ok (read_chain lib files v loc) _ got1 in
    let (roots, trusted, h4) = >>=-eq-ok (trust_roots lib files v) _ h3 in
    let (paths, verified, _) =
      >>=-eq-ok (map_err lib_error (lib.verify leaf roots intermediates)) _ h4 in
    record {
      leaf = leaf;
      intermediates = intermediates;
      roots = roots;
      paths = paths;
      url = loc;
      parsed = map_err-eq-ok lib_error (lib.parse_url v.certificate) loc parsed;
      chain = certs;
      read = read_chain-IsRead lib files v loc certs read;
      taken = extract-IsChainOf certs leaf intermediates got2;
      source = trust_roots-IsSource lib files v u roots one trusted;
      verified = map_err-eq-ok lib_error (lib.verify leaf roots intermediates) paths verified;
    }

-- For a `file:` URL, the chain is read from the file whose name is the URL's own text: when that
-- cannot be read, there is no chain, whatever file the URL's path names.
pub get_certificate_chain-file_url :
    (lib : VerifyLib) (files : Files) (v : Verifier) (u : Url) (failure : String)
    → lib.parse_url v.certificate ≡ ok u
    → u.scheme ≡ "file"
    → files v.certificate ≡ err failure
    → (e : VerifyError) × (get_certificate_chain lib files v ≡ err e)
unfolding get_certificate_chain read_chain read_chain_file read_certificates_from_file
get_certificate_chain-file_url lib files v u failure parsed file missing =
    elim (Result-cases (lib.abs u.path)) [
      | inr (e, bad) ↦ (lib_error e, rw (parsed, get_certificate_chain, file, bad) refl)
      | inl (clean, good) ↦ elim (Bool-cases (lib.is_file_path clean)) [
        | inr bad ↦ (bad_path clean, rw (parsed, get_certificate_chain, file, good, bad) refl)
        | inl valid ↦
            (lib_error failure, rw (parsed, get_certificate_chain, file, good, valid, missing) refl)
      ]
    ]
