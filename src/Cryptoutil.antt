-- ===== src/Cryptoutil.antt =====
-- internal/cryptoutil: key comparison, and the JOSE algorithm of a public key.
pub mod Keys
use Prim.Native.String
use spiffecli.Prelude.{
  ℕ, ◌+◌, ◌/◌, Bool, true, false, ◌&&◌, List, [], ◌∷◌, Result, ok, err, ◌>>=◌, guard, not, String,
  ◌==◌, ltb, if◌then◌else◌, ◌=ₛ◌,
}
use spiffecli.Cert.{PublicKey, rsa_public, ecdsa_public, ed25519_public, other_public}

-- `*rsa.PrivateKey` and `*ecdsa.PrivateKey` embed their public key.
pub data PrivateKey : Type 0 where
  rsa_private : (bits n e d : ℕ) → PrivateKey
  ecdsa_private : (bit_size : ℕ) → (curve : String) → (x y d : ℕ) → PrivateKey
  other_private : String → PrivateKey

-- `jose.SignatureAlgorithm` is a text.
abbrev pub SignatureAlgorithm : Type 0
SignatureAlgorithm = String

abbrev pub rs256 : SignatureAlgorithm
rs256 = "RS256"

abbrev pub es256 : SignatureAlgorithm
es256 = "ES256"

abbrev pub es384 : SignatureAlgorithm
es384 = "ES384"

pub data KeyError : Type 0 where
  unsupported_public_key unsupported_private_key no_algorithm_for_key : KeyError
  unsupported_rsa_size no_algorithm_for_ec_size : ℕ → KeyError

unfoldable pub rsa_public_key_equal : (n e n' e' : ℕ) → Bool
rsa_public_key_equal n e n' e' = e == e' && n == n'

-- `a.Equal(b)` of ecdsa: the same curve and the same point
unfoldable pub ecdsa_public_key_equal : String → ℕ → ℕ → String → ℕ → ℕ → Bool
ecdsa_public_key_equal c x y c' x' y' = c =ₛ c' && (x == x' && y == y')

unfoldable pub public_key_equal : PublicKey → PublicKey → Result KeyError Bool
unfolding rsa_public_key_equal ecdsa_public_key_equal
public_key_equal (rsa_public bits n e) (rsa_public bits' n' e') =
    ok (rsa_public_key_equal n e n' e')
public_key_equal (rsa_public bits n e) b = ok false
public_key_equal (ecdsa_public bits c x y) (ecdsa_public bits' c' x' y') =
    ok (ecdsa_public_key_equal c x y c' x' y')
public_key_equal (ecdsa_public bits c x y) b = ok false
public_key_equal a b = err unsupported_public_key

unfoldable pub key_matches : PrivateKey → PublicKey → Result KeyError Bool
unfolding rsa_public_key_equal ecdsa_public_key_equal
key_matches (rsa_private bits n e d) (rsa_public bits' n' e') = ok (rsa_public_key_equal n e n' e')
key_matches (rsa_private bits n e d) b = ok false
key_matches (ecdsa_private bits c x y d) (ecdsa_public bits' c' x' y') =
    ok (ecdsa_public_key_equal c x y c' x' y')
key_matches (ecdsa_private bits c x y d) b = ok false
key_matches (other_private t) b = err unsupported_private_key

-- `publicKey.Size()`: the bytes of the modulus
abbrev pub rsa_size : ℕ → ℕ
rsa_size bits = (bits + 7) / 8

unfoldable pub jose_alg_from_public_key : PublicKey → Result KeyError SignatureAlgorithm
jose_alg_from_public_key (rsa_public bits n e) =
    if ltb (rsa_size bits) 256 then err (unsupported_rsa_size (rsa_size bits)) else ok rs256
jose_alg_from_public_key (ecdsa_public bit_size c x y) =
    if bit_size == 256
    then ok es256
    else if bit_size == 384
    then ok es384
    else err (no_algorithm_for_ec_size bit_size)
jose_alg_from_public_key (ed25519_public key) = err no_algorithm_for_key
jose_alg_from_public_key (other_public t) = err no_algorithm_for_key
