-- ===== src/X509Verify.antt =====
-- internal/x509verify with bundles.go of internal/x509util, and the flags of `verify x509` in
-- cmd/verify.go. A pool of certificates is the list of those added to it; nil is none.
pub mod Leaf
pub mod Sources
use Prim.Native.String
use spiffecli.Prelude.{
  ℕ, ◌+◌, ◌==◌, ltb, Bool, true, false, not, ◌||◌, if◌then◌else◌, Option, none, some, List, [], ◌∷◌,
  ◌++◌, Result, ok, err, ◌>>=◌, ◌>>◌, guard, map_err, String, Bytes, ◌=ₛ◌,
}
use spiffecli.Cert.{Cert}

pub record Verifier : Type 0 where
  pub certificate : String
  pub format : String
  pub password : String
  pub ca_bundle : String
  pub ca_format : String
  pub ca_password : String
  pub system_bundle : Bool
  pub root_program : String
  pub show_path : Bool

-- The parts of a `url.URL` that are read.
pub record Url : Type 0 where
  pub scheme : String
  pub path : String
  pub text : String

pub data VerifyError : Type 0 where
  no_certificate empty_chain no_leaf no_parser no_source many_sources : VerifyError
  bad_format bad_ca_format bad_root_program bad_path bad_scheme : String → VerifyError
  bad_status : ℕ → VerifyError
  lib_error : String → VerifyError

-- The files, by what `os.ReadFile` returns.
abbrev pub Files : Type 0
Files = String → Result String Bytes

-- The calls of the standard library, cfssl, go-pkcs12 and govalidator: `url.Parse`, `filepath.Abs`,
-- `IsFilePath`, the parsers of certificates and stores, the peer's certificates at a URL, the name of
-- a new temporary file, `Get` with a status and the whole body, `Verify` with roots and
-- intermediates, and the printing of paths.
pub record VerifyLib : Type 0 where
  pub parse_url : String → Result String Url
  pub abs : String → Result String String
  pub is_file_path : String → Bool
  pub parse_der : Bytes → String → Result String (List Cert)
  pub decode_chain : Bytes → String → Result String (Cert × List Cert)
  pub parse_pem : Bytes → Result String (List Cert)
  pub load_pem_cert_pool : Files → String → Result String (List Cert)
  pub decode_trust_store : Bytes → String → Result String (List Cert)
  pub system_cert_pool : Result String (List Cert)
  pub peer_certificates : Url → Result String (List Cert)
  pub create_temp : Result String String
  pub get : String → Result String (ℕ × Bytes)
  pub verify : Cert → List Cert → Option (List Cert) → Result String (List (List Cert))
  pub render_paths : List (List Cert) → String

pub record RemoteBundle : Type 0 where
  pub url : String
  pub format : String
  pub parser : Option (Bytes → Result String Bytes)

-- `RootPrograms` with `parseMozilla`
unfoldable pub root_programs : String → Option RemoteBundle
root_programs name =
    if name =ₛ "mozilla"
    then some (record {
      url =
          "https://ccadb.my.salesforce-sites.com/mozilla/IncludedRootsPEMTxt?TrustBitsInclude=Websites";
      format = "pem";
      parser = some (λ body. ok body);
    })
    else none

-- The value of a missing key.
unfoldable pub root_program : String → RemoteBundle
root_program name = elim (root_programs name) [
  | some bundle ↦ bundle
  | none ↦ record { url = ""; format = ""; parser = none }
]

-- The loop of `ExtractLeafAndIntermediates`: the leaf, if there is one yet, and the pool.
unfoldable pub split_chain : Option Cert → List Cert → List Cert → Option Cert × List Cert
split_chain leaf pool [] = (leaf, pool)
split_chain none pool (c ∷ cs) =
    if c.is_ca then split_chain none (pool ++ c ∷ []) cs else split_chain (some c) pool cs
split_chain (some leaf) pool (c ∷ cs) = split_chain (some leaf) (pool ++ c ∷ []) cs

-- What `ExtractLeafAndIntermediates` returns after the loop.
abbrev pub leaf_and_pool : Option Cert → List Cert → Result VerifyError (Cert × Option (List Cert))
leaf_and_pool none pool = err no_leaf
leaf_and_pool (some leaf) pool = ok (leaf, some pool)

unfoldable pub extract_leaf_and_intermediates :
    List Cert → Result VerifyError (Cert × Option (List Cert))
extract_leaf_and_intermediates [] = err empty_chain
extract_leaf_and_intermediates (c ∷ []) = ok (c, none)
extract_leaf_and_intermediates (c ∷ d ∷ cs) =
    let (leaf, pool) = split_chain none [] (c ∷ d ∷ cs) in leaf_and_pool leaf pool

-- `validateOptions`
unfoldable pub validate_options : Verifier → Result VerifyError (Unit {0})
validate_options v = do
  guard (not (v.certificate =ₛ "")) no_certificate
  guard (v.format =ₛ "" || v.format =ₛ "pem" || v.format =ₛ "der") (bad_format v.format)
  guard (v.ca_bundle =ₛ "" || v.ca_format =ₛ "pem" || v.ca_format =ₛ "jks" || v.ca_format =ₛ "p12")
      (bad_ca_format v.ca_format)
  elim (root_programs v.root_program) [
    | some bundle ↦ ok tt
    | none ↦ guard (v.root_program =ₛ "") (bad_root_program v.root_program)
  ]

-- The files after the temporary one is written.
abbrev pub written : Files → String → Bytes → Files
written files name bytes path = if path =ₛ name then ok bytes else files path

module _ (lib : VerifyLib) where
  unfoldable pub read_certificates_from_file :
      Files → String → String → String → Result VerifyError (List Cert)
  read_certificates_from_file files filename format password = do
    bytes ← map_err lib_error (files filename)
    if format =ₛ "der"
        then elim (lib.parse_der bytes password) [
          | ok certs ↦ ok certs
          | err e ↦ do
            chain ← map_err lib_error (lib.decode_chain bytes password)
            ok (chain.0 ∷ chain.1)
        ]
        else map_err lib_error (lib.parse_pem bytes)

  unfoldable pub parse_ca_bundle_from_file :
      Files → String → String → String → Result VerifyError (List Cert)
  parse_ca_bundle_from_file files path password format =
      if format =ₛ "pem"
      then map_err lib_error (lib.load_pem_cert_pool files path)
      else if format =ₛ "jks" || format =ₛ "p12"
      then (do
        bytes ← map_err lib_error (files path)
        map_err lib_error (lib.decode_trust_store bytes password))
      else err (bad_ca_format format)

  abbrev pub parse_body : RemoteBundle → Bytes → Result VerifyError Bytes
  parse_body bundle body = elim bundle.parser [
    | none ↦ err no_parser
    | some parser ↦ map_err lib_error (parser body)
  ]

  -- `ParseRemoteBundle`
  unfoldable pub parse_remote_bundle : Files → RemoteBundle → Result VerifyError (List Cert)
  parse_remote_bundle files bundle = do
    name ← map_err lib_error lib.create_temp
    response ← map_err lib_error (lib.get bundle.url)
    guard (response.0 == 200) (bad_status response.0)
    bytes ← parse_body bundle response.1
    parse_ca_bundle_from_file (written files name bytes) name "" bundle.format

  -- The cases "file" and "" of `GetCertificateChain`
  unfoldable pub read_chain_file : Files → Verifier → Url → Result VerifyError (List Cert)
  read_chain_file files v u = do
    clean ← map_err lib_error (lib.abs (if u.scheme =ₛ "file" then u.path else v.certificate))
    guard (lib.is_file_path clean) (bad_path clean)
    read_certificates_from_file files v.certificate v.format v.password

  unfoldable pub read_chain : Files → Verifier → Url → Result VerifyError (List Cert)
  read_chain files v u =
      if u.scheme =ₛ "https"
      then map_err lib_error (lib.peer_certificates u)
      else if u.scheme =ₛ "file" || u.scheme =ₛ ""
      then read_chain_file files v u
      else err (bad_scheme u.scheme)

  unfoldable pub get_certificate_chain :
      Files → Verifier → Result VerifyError (Cert × Option (List Cert))
  get_certificate_chain files v = do
    u ← map_err lib_error (lib.parse_url v.certificate)
    certs ← read_chain files v u
    extract_leaf_and_intermediates certs

  -- The switch on the trust store
  unfoldable pub trust_roots : Files → Verifier → Result VerifyError (List Cert)
  trust_roots files v =
      if not (v.ca_bundle =ₛ "")
      then parse_ca_bundle_from_file files v.ca_bundle v.ca_password v.ca_format
      else if v.system_bundle
      then map_err lib_error lib.system_cert_pool
      else parse_remote_bundle files (root_program v.root_program)

  unfoldable pub verify_certificate : Files → Verifier → Result VerifyError String
  verify_certificate files v = do
    validate_options v
    chain ← get_certificate_chain files v
    roots ← trust_roots files v
    paths ← map_err lib_error (lib.verify chain.0 roots chain.1)
    ok (if v.show_path then lib.render_paths paths else "")

abbrev pub flag : Bool → ℕ
flag b = if b then 1 else 0

-- `PreRunE` of `verify x509`
unfoldable pub ca_flags_set : Verifier → ℕ
ca_flags_set v =
    flag (not (v.ca_bundle =ₛ "")) + flag v.system_bundle + flag (not (v.root_program =ₛ ""))

unfoldable pub pre_run : Verifier → Result VerifyError (Unit {0})
pre_run v = do
  guard (not (ltb (ca_flags_set v) 1)) no_source
  guard (not (ltb 1 (ca_flags_set v))) many_sources

-- `verify x509`: `PreRunE`, then `RunE`, which prints the path if it is asked to.
unfoldable pub verify_x509 : VerifyLib → Files → Verifier → Result VerifyError (Option String)
verify_x509 lib files v = do
  pre_run v
  path ← verify_certificate lib files v
  ok (if v.show_path then some path else none)
