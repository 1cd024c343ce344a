-- ===== src/X509Svid.antt =====
-- internal/x509svid: client.go, with files as a store, and uniqueid.go. Names and contents are bytes.
pub mod Outputs
use Prim.Native.String
use spiffecli.Prelude.{
  ℕ, ◌==◌, ◌/◌, Bool, true, false, not, ◌||◌, Option, none, some, List, [], ◌∷◌, ◌++◌, Result, ok,
  err, ◌>>=◌, ◌>>◌, guard, map_err, String, ◌=ₛ◌, one_of, Bytes, bytes_equal, is_empty, codes,
  length, if◌then◌else◌,
}
use spiffecli.Cert.{SpiffeId, Cert}
use spiffecli.X509Verify.{VerifyError, VerifyLib, Files, read_certificates_from_file}

-- `strings.SplitN(s, sep, 2)` at one byte: the part before the first separator, and what follows it.
unfoldable pub split_n2 : ℕ → Bytes → Bytes × Option Bytes
split_n2 sep [] = ([], none)
split_n2 sep (c ∷ cs) =
    let rest = split_n2 sep cs in if c == sep then ([], some cs) else (c ∷ rest.0, rest.1)

-- `.`
abbrev pub dot : ℕ
dot = 46

abbrev pub with_suffix : Bytes × Option Bytes → Bytes
with_suffix (name, none) = name ++ codes "-key"
with_suffix (name, some ext) = name ++ codes "-key." ++ ext

-- `privateKeyFilename`
unfoldable pub private_key_filename : Bytes → Bytes
private_key_filename filename = with_suffix (split_n2 dot filename)

pub record X509SvidClient : Type 0 where
  pub filename : String
  pub workload_api_socket : String
  pub format : String
  pub password : String

pub data X509ClientError : Type 0 where
  unknown_format : String → X509ClientError
  no_file : X509ClientError
  no_chain : VerifyError → X509ClientError
  no_source not_fetched not_verified not_marshaled key_not_written cert_not_written :
      String → X509ClientError

-- The files by name, the newest write in front.
abbrev pub Store : Type 0
Store = List (Bytes × Bytes)

abbrev pub read_store : Bytes → Store → Option Bytes
read_store name [] = none
read_store name ((n, content) ∷ store) =
    if bytes_equal name n then some content else read_store name store

-- go-spiffe's `NewX509Source` at a socket, with an exchange token or none, `GetX509SVID`, `Marshal` and
-- `MarshalRaw` of an SVID to its certificates and its key, `x509svid.Verify` of a chain;
-- the files and the libraries of X509Verify; and whether `os.WriteFile` of a name fails.
pub record X509ClientLib (W V : Type 0) : Type 0 where
  pub new_x509_source : String → Option String → Result String W
  pub get_x509_svid : W → Result String V
  pub marshal : V → Result String (Bytes × Bytes)
  pub marshal_raw : V → Result String (Bytes × Bytes)
  pub verify : List Cert → W → Result String (Unit {0})
  pub files : Files
  pub verifying : VerifyLib
  pub write_file : Bytes → Result String (Unit {0})

-- `validateOptions`
unfoldable pub validate_options : X509SvidClient → Result X509ClientError (Unit {0})
validate_options c =
    guard (c.format =ₛ "" || one_of c.format ("pem" ∷ "der" ∷ [])) (unknown_format c.format)

module _ {W V : Type 0} (lib : X509ClientLib W V) (c : X509SvidClient) where
  -- The certificates and the key in the format of the flag
  unfoldable pub marshal_svid : V → Result X509ClientError (Bytes × Bytes)
  marshal_svid svid =
      map_err not_marshaled (if c.format =ₛ "der" then lib.marshal_raw svid else lib.marshal svid)

  -- The writes of `outputSVID`: the store they leave, and the outcome.
  unfoldable pub write_files : Bytes → Bytes → Store → Store × Result X509ClientError (Unit {0})
  write_files cert private_key store =
      elim (lib.write_file (private_key_filename (codes c.filename))) [
        | err e ↦ (store, err (key_not_written e))
        | ok u ↦
            let with_key = (private_key_filename (codes c.filename), private_key) ∷ store in
            elim (lib.write_file (codes c.filename)) [
              | err e ↦ (with_key, err (cert_not_written e))
              | ok v ↦ ((codes c.filename, cert) ∷ with_key, ok tt)
            ]
      ]

  -- `outputSVID`: what it prints, the store, and the outcome.
  unfoldable pub output_svid : V → Store → Bytes × Store × Result X509ClientError (Unit {0})
  output_svid svid store = elim (marshal_svid svid) [
    | err e ↦ ([], store, err e)
    | ok (cert, private_key) ↦
        let written = write_files cert private_key store in
        if not (c.filename =ₛ "")
        then ([], written.0, written.1)
        else (cert ++ 10 ∷ 10 ∷ private_key ++ 10 ∷ [], store, ok tt)
  ]

  unfoldable pub fetch_svid : String → Result X509ClientError V
  fetch_svid exchange_token = do
    validate_options c
    source ← map_err no_source (
        lib.new_x509_source c.workload_api_socket
          (if exchange_token =ₛ "" then none else some exchange_token))
    map_err not_fetched (lib.get_x509_svid source)

  -- `RequestX509SVID`, in a context with this exchange token
  unfoldable pub request_x509_svid :
      String → Store → Bytes × Store × Result X509ClientError (Unit {0})
  request_x509_svid exchange_token store = elim (fetch_svid exchange_token) [
    | err e ↦ ([], store, err e)
    | ok svid ↦ output_svid svid store
  ]

  -- `getCertificateChain`
  unfoldable pub get_certificate_chain : Result X509ClientError (List Cert)
  get_certificate_chain = do
    guard (not (c.filename =ₛ "")) no_file
    map_err no_chain
        (read_certificates_from_file lib.verifying lib.files c.filename c.format c.password)

  -- `Verifyx509SVID`
  unfoldable pub verify_x509_svid : Result X509ClientError (Unit {0})
  verify_x509_svid = do
    validate_options c
    source ← map_err no_source (lib.new_x509_source c.workload_api_socket none)
    certs ← get_certificate_chain
    map_err not_verified (lib.verify certs source)

-- `calculateUniqueIDValue`, with `sha256.Sum` of a text and `hex.EncodeToString`.
abbrev pub take {ℓ} : {A : Type ℓ} → ℕ → List A → List A
take ℕ.zero xs = []
take (ℕ.suc n) [] = []
take (ℕ.suc n) (x ∷ xs) = x ∷ take n xs

unfoldable pub calculate_unique_id_value : (String → Bytes) → (Bytes → Bytes) → SpiffeId → Bytes
calculate_unique_id_value sha256 hex id =
    let sum = sha256 id.text in hex (take (length sum / 2) sum)
