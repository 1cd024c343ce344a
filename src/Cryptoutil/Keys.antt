-- ===== src/Cryptoutil/Keys.antt =====
-- What the comparisons of keys decide, and which keys have an algorithm.
use spiffecli.Prelude.{◌≤◌, ◌≡◌, ◌↔◌, ◌⊎◌, refl, Bool, true, ok, arith, =ₛ_iff, inl, inr}
use spiffecli.Cert.{PublicKey, rsa_public, ecdsa_public, ed25519_public, other_public}
use spiffecli.Cryptoutil.{
  PrivateKey, rsa_private, ecdsa_private, other_private, SignatureAlgorithm, rs256, es256, es384,
  public_key_equal, key_matches, jose_alg_from_public_key,
}

-- The public half of a private key.
abbrev pub public_of : PrivateKey → PublicKey
public_of (rsa_private bits n e d) = rsa_public bits n e
public_of (ecdsa_private bits c x y d) = ecdsa_public bits c x y
public_of (other_private t) = other_public t

-- Whether two keys are the same RSA key or the same ECDSA key.
abbrev pub SameKey : PublicKey → PublicKey → Type 0
SameKey (rsa_public bits n e) (rsa_public bits' n' e') = (n ≡ n') × (e ≡ e')
SameKey (ecdsa_public bits c x y) (ecdsa_public bits' c' x' y') = (c ≡ c') × (x ≡ x') × (y ≡ y')
SameKey _ _ = ⊥

-- Where `PublicKeyEqual` returns no error, it returns true exactly for the same kind of key: RSA keys
-- of one modulus and exponent, or ECDSA keys of one curve and point.
pub public_key_equal_iff :
    (a b : PublicKey) (r : Bool) → public_key_equal a b ≡ ok r → (r ≡ true) ↔ SameKey a b
unfolding public_key_equal
public_key_equal_iff (rsa_public bits n e) (rsa_public bits' n' e') r h = ground arith
public_key_equal_iff (ecdsa_public bits c x y) (ecdsa_public bits' c' x' y') r h =
    ground (arith, =ₛ_iff c c')
public_key_equal_iff _ _ r h = ground arith

-- `KeyMatches` returns an answer without error exactly when `PublicKeyEqual` returns the same one for
-- the public half of the private key.
pub key_matches-public_of :
    (k : PrivateKey) (b : PublicKey) (r : Bool)
    → (key_matches k b ≡ ok r) ↔ (public_key_equal (public_of k) b ≡ ok r)
unfolding key_matches public_key_equal
key_matches-public_of (rsa_private bits n e d) (rsa_public bits' n' e') r = ground arith
key_matches-public_of (rsa_private bits n e d) b r = ground arith
key_matches-public_of (ecdsa_private bits c x y d) (ecdsa_public bits' c' x' y') r = ground arith
key_matches-public_of (ecdsa_private bits c x y d) b r = ground arith
key_matches-public_of (other_private t) b r = ground arith

-- The keys that have an algorithm: RSA of at least 2041 bits, and ECDSA of 256 or 384 bits.
abbrev pub HasAlgorithm : PublicKey → Type 0
HasAlgorithm (rsa_public bits n e) = 2041 ≤ bits
HasAlgorithm (ecdsa_public bit_size c x y) = (bit_size ≡ 256) ⊎ (bit_size ≡ 384)
HasAlgorithm _ = ⊥

pub jose_alg_total :
    (k : PublicKey)
    → HasAlgorithm k
    → (alg : SignatureAlgorithm) × (jose_alg_from_public_key k ≡ ok alg)
      × ((alg ≡ rs256) ⊎ (alg ≡ es256) ⊎ (alg ≡ es384))
unfolding jose_alg_from_public_key
jose_alg_total (rsa_public bits n e) h = (rs256, ground arith, inl refl)
jose_alg_total (ecdsa_public bits c x y) (inl h) = (es256, ground arith, inr (inl refl))
jose_alg_total (ecdsa_public bits c x y) (inr h) = (es384, ground arith, inr (inr refl))
jose_alg_total (ed25519_public k) h = absurd h
jose_alg_total (other_public t) h = absurd h

pub jose_alg_names :
    (k : PublicKey) (alg : SignatureAlgorithm)
    → jose_alg_from_public_key k ≡ ok alg
    → (alg ≡ rs256) ⊎ (alg ≡ es256) ⊎ (alg ≡ es384)
unfolding jose_alg_from_public_key
jose_alg_names (rsa_public bits n e) alg h = inl (ground arith)
jose_alg_names (ecdsa_public bits c x y) alg h = ground arith
jose_alg_names (ed25519_public k) alg h = cc
jose_alg_names (other_public t) alg h = cc

-- A key has a JOSE algorithm exactly when it is RSA with a modulus of 256 bytes or more (2041 bits),
-- or ECDSA over a curve of 256 or 384 bits; the algorithm is then RS256, ES256 or ES384.
pub jose_alg_iff :
    (k : PublicKey)
    → HasAlgorithm k ↔ (
        (alg : SignatureAlgorithm) × (jose_alg_from_public_key k ≡ ok alg)
        × ((alg ≡ rs256) ⊎ (alg ≡ es256) ⊎ (alg ≡ es384)))
unfolding jose_alg_from_public_key
jose_alg_iff k = (jose_alg_total k, λ (alg, e, _). back k alg e)
  where
    back :
        (q : PublicKey) (alg : SignatureAlgorithm)
        → jose_alg_from_public_key q ≡ ok alg
        → HasAlgorithm q
    back (rsa_public bits n e) alg h = ground arith
    back (ecdsa_public bits c x y) alg h = ground arith
    back (ed25519_public q) alg h = cc
    back (other_public t) alg h = cc
