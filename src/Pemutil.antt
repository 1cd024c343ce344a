-- ===== src/Pemutil.antt =====
-- internal/pemutil: the blocks of a PEM text, and the certificates, requests and keys in them. The
-- `Load…` functions are the `Parse…` ones after `os.ReadFile`.
pub mod Blocks
pub mod Outcomes
pub mod Certificates
use Prim.Native.String
use spiffecli.Prelude.{
  ℕ, zero, suc, ◌==◌, Bool, true, false, not, ◌&&◌, ◌||◌, if◌then◌else◌, Option, none, some, List,
  [], ◌∷◌, ◌++◌, Result, ok, err, ◌>>=◌, ◌>>◌, guard, map_err, map, traverse, length, is_empty, any,
  String, Bytes, ltb, ◌=ₛ◌,
}
use spiffecli.Cert.{Cert, PublicKey}

-- A `pem.Block`, less its headers, which nobody reads.
pub record PemBlock : Type 0 where
  pub kind : String
  pub bytes : Bytes

-- A private key by its type and its encoding; `is_signer` tells whether it has the methods of a
-- `crypto.Signer`.
pub data KeyKind : Type 0 where
  rsa_key ecdsa_key other_key : KeyKind

pub record Key : Type 0 where
  pub kind : KeyKind
  pub is_signer : Bool
  pub encoding : Bytes

-- The `Object` of a block: nil for an unknown type.
pub data Object : Type 0 where
  no_object : Object
  cert_object : Cert → Object
  request_object : Bytes → Object
  private_object : Key → Object
  public_object : PublicKey → Object

pub record Block : Type 0 where
  pub kind : String
  pub object : Object

pub data PemError : Type 0 where
  no_blocks out_of_fuel : PemError
  reading parsing : String → PemError
  block_count : (expected got : ℕ) → PemError
  block_type : List String → String → PemError
  block_parse : (kind : String) → (number : ℕ) → String → PemError
  object_type : Object → PemError

-- `pem.Decode`, `pem.EncodeToMemory`, the parsers of crypto/x509, and `os.ReadFile`.
pub record PemLib : Type 0 where
  pub decode : Bytes → Option (PemBlock × Bytes)
  pub encode : PemBlock → Bytes
  pub parse_certificate : Bytes → Result String Cert
  pub parse_request : Bytes → Result String Bytes
  pub parse_pkcs1 : Bytes → Result String Key
  pub parse_ec : Bytes → Result String Key
  pub parse_pkcs8 : Bytes → Result String Key
  pub parse_pkix : Bytes → Result String PublicKey
  pub read_file : String → Result String Bytes

abbrev pub certificate_type : String
certificate_type = "CERTIFICATE"

abbrev pub certificate_request_type : String
certificate_request_type = "CERTIFICATE REQUEST"

abbrev pub public_key_type : String
public_key_type = "PUBLIC KEY"

abbrev pub private_key_type : String
private_key_type = "PRIVATE KEY"

abbrev pub rsa_private_key_type : String
rsa_private_key_type = "RSA PRIVATE KEY"

abbrev pub ec_private_key_type : String
ec_private_key_type = "EC PRIVATE KEY"

abbrev pub object_map : {A : Type 0} → (A → Object) → Result String A → Result String Object
object_map f (ok a) = ok (f a)
object_map f (err e) = err e

-- The test on the expected types: none expected, or one of them.
abbrev pub type_allowed : List String → String → Bool
type_allowed types kind = is_empty types || any (λ t. t =ₛ kind) types

-- What follows when no block is left.
unfoldable pub finish : ℕ → List Block → Result PemError (List Block)
finish expected blocks =
    if is_empty blocks
    then err no_blocks
    else if ltb 0 expected && not (length blocks == expected)
    then err (block_count expected (length blocks))
    else ok blocks

module _ (lib : PemLib) where
  -- The switch on the type of a block.
  unfoldable pub parse_object : PemBlock → Result String Object
  parse_object p =
      if p.kind =ₛ certificate_type
      then object_map cert_object (lib.parse_certificate p.bytes)
      else if p.kind =ₛ certificate_request_type
      then object_map request_object (lib.parse_request p.bytes)
      else if p.kind =ₛ rsa_private_key_type
      then object_map private_object (lib.parse_pkcs1 p.bytes)
      else if p.kind =ₛ ec_private_key_type
      then object_map private_object (lib.parse_ec p.bytes)
      else if p.kind =ₛ private_key_type
      then object_map private_object (lib.parse_pkcs8 p.bytes)
      else if p.kind =ₛ public_key_type
      then object_map public_object (lib.parse_pkix p.bytes)
      else ok no_object

  -- One turn of the loop of `parseBlocks`.
  unfoldable pub parse_one : List String → ℕ → PemBlock → Result PemError Block
  parse_one types number p = do
    guard (type_allowed types p.kind) (block_type types p.kind)
    object ← map_err (block_parse p.kind number) (parse_object p)
    ok (record { kind = p.kind; object = object })

  -- The loop of `parseBlocks`, on fuel.
  unfoldable pub parse_loop :
      ℕ → List String → ℕ → ℕ → List Block → Bytes → Result PemError (List Block)
  parse_loop zero types expected number blocks bytes = err out_of_fuel
  parse_loop (suc fuel) types expected number blocks bytes = elim (lib.decode bytes) [
    | none ↦ finish expected blocks
    | some (p, rest) ↦ do
      block ← parse_one types number p
      parse_loop fuel types expected (suc number) (blocks ++ block ∷ []) rest
  ]

  -- `parseBlocks`
  unfoldable pub parse_blocks : Bytes → ℕ → List String → Result PemError (List Block)
  parse_blocks bytes expected types = parse_loop (suc (length bytes)) types expected 1 [] bytes

  -- `loadBlocks`
  unfoldable pub load_blocks : String → ℕ → List String → Result PemError (List Block)
  load_blocks path expected types = do
    bytes ← map_err reading (lib.read_file path)
    parse_blocks bytes expected types

-- `blocks[0]`
abbrev pub first : List Block → Result PemError Block
first [] = err no_blocks
first (b ∷ bs) = ok b

unfoldable pub cert_from_object : Object → Result PemError Cert
cert_from_object (cert_object c) = ok c
cert_from_object o = err (object_type o)

unfoldable pub csr_from_object : Object → Result PemError Bytes
csr_from_object (request_object r) = ok r
csr_from_object o = err (object_type o)

-- `rsaPrivateKeyFromObject`, `ecdsaPrivateKeyFromObject` and `signerFromPrivateKey`, by their test.
unfoldable pub key_from_object : (Key → Bool) → Object → Result PemError Key
key_from_object test (private_object k) =
    if test k then ok k else err (object_type (private_object k))
key_from_object test o = err (object_type o)

abbrev pub is_rsa : Key → Bool
is_rsa k = elim k.kind [ rsa_key ↦ true | ecdsa_key ↦ false | other_key ↦ false ]

abbrev pub is_ecdsa : Key → Bool
is_ecdsa k = elim k.kind [ rsa_key ↦ false | ecdsa_key ↦ true | other_key ↦ false ]

unfoldable pub certs_from_blocks : List Block → Result PemError (List Cert)
certs_from_blocks blocks = traverse (λ b. cert_from_object b.object) blocks

abbrev pub certificate_block : Cert → PemBlock
certificate_block c = record { kind = certificate_type; bytes = c.raw }

module _ (lib : PemLib) where
  -- `parseBlock`
  unfoldable pub parse_block : Bytes → List String → Result PemError Block
  parse_block bytes types = do blocks ← parse_blocks lib bytes 1 types; first blocks

  unfoldable pub parse_certificate : Bytes → Result PemError Cert
  parse_certificate bytes = do
    block ← parse_block bytes (certificate_type ∷ [])
    cert_from_object block.object

  unfoldable pub parse_certificates : Bytes → Result PemError (List Cert)
  parse_certificates bytes = do
    blocks ← parse_blocks lib bytes 0 (certificate_type ∷ [])
    certs_from_blocks blocks

  unfoldable pub parse_certificate_request : Bytes → Result PemError Bytes
  parse_certificate_request bytes = do
    block ← parse_block bytes (certificate_request_type ∷ [])
    csr_from_object block.object

  unfoldable pub parse_private_key : Bytes → Result PemError Object
  parse_private_key bytes = do
    block ← parse_block bytes (private_key_type ∷ rsa_private_key_type ∷ ec_private_key_type ∷ [])
    ok block.object

  unfoldable pub parse_public_key : Bytes → Result PemError Object
  parse_public_key bytes = do block ← parse_block bytes (public_key_type ∷ []); ok block.object

  unfoldable pub parse_signer : Bytes → Result PemError Key
  parse_signer bytes = do
    object ← parse_private_key bytes
    key_from_object (λ k. k.is_signer) object

  unfoldable pub parse_rsa_private_key : Bytes → Result PemError Key
  parse_rsa_private_key bytes = do
    block ← parse_block bytes (private_key_type ∷ rsa_private_key_type ∷ [])
    key_from_object is_rsa block.object

  unfoldable pub parse_ec_private_key : Bytes → Result PemError Key
  parse_ec_private_key bytes = do
    block ← parse_block bytes (private_key_type ∷ ec_private_key_type ∷ [])
    key_from_object is_ecdsa block.object

  -- `EncodeCertificates`: the buffer after `encodeCertificate` of each.
  unfoldable pub encode_certificates : List Cert → Bytes
  encode_certificates [] = []
  encode_certificates (c ∷ cs) = lib.encode (certificate_block c) ++ encode_certificates cs
