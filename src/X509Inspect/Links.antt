-- ===== src/X509Inspect/Links.antt =====
-- chain.go: fingerprints, SPIFFE IDs, the parent and self-signed tests, the union of the given
-- certificates and the parent map. A map from fingerprints is an association list, a set of
-- fingerprints a list of numbers.
pub mod Union
pub mod Parents
use Prim.Native.String
use spiffecli.Prelude.{
  ℕ, suc, Bool, false, not, ◌&&◌, Option, none, some, List, [], ◌∷◌, ◌++◌, ok, err, String,
  bytes_equal, is_empty, mem, ◌==◌, if◌then◌else◌,
}
use spiffecli.Cert.{Uri, Cert, X509Lib}

-- `seen` and `result` of `unionCerts`.
pub record UnionState : Type 0 where
  pub seen : List ℕ
  pub result : List Cert

module _ (lib : X509Lib) where
  open lib use {sha256, check_signature_from, from_uri}

  unfoldable pub cert_fingerprint : Cert → ℕ
  cert_fingerprint cert = sha256 cert.raw

  -- the loop of `extractSpiffeID`
  unfoldable pub extract_from : List Uri → String
  extract_from [] = ""
  extract_from (uri ∷ uris) =
      let rest = extract_from uris in elim (from_uri uri) [ ok sid ↦ sid.text | err e ↦ rest ]

  unfoldable pub extract_spiffe_id : Cert → String
  unfolding extract_from
  extract_spiffe_id cert = extract_from cert.uris

  unfoldable pub is_parent : Cert → Cert → Bool
  is_parent cert parent =
      if not (is_empty cert.authority_key_id) && not (is_empty parent.subject_key_id)
      then bytes_equal cert.authority_key_id parent.subject_key_id
        && bytes_equal cert.raw_issuer parent.raw_subject
      else bytes_equal cert.raw_issuer parent.raw_subject && check_signature_from cert parent

  unfoldable pub is_self_signed : Cert → Bool
  is_self_signed cert =
      if not (bytes_equal cert.raw_issuer cert.raw_subject)
      then false
      else check_signature_from cert cert

  -- one round of `unionCerts`
  unfoldable pub union_step : UnionState → Cert → UnionState
  union_step s c =
      if mem (cert_fingerprint c) s.seen
      then s
      else record { seen = cert_fingerprint c ∷ s.seen; result = s.result ++ c ∷ [] }

  unfoldable pub union_loop : UnionState → List Cert → List Cert
  union_loop s [] = s.result
  union_loop s (c ∷ cs) = union_loop (union_step s c) cs

  unfoldable pub union_certs : List Cert → List Cert → List Cert
  union_certs a b = union_loop (record { seen = []; result = [] }) (a ++ b)

  -- `buildParentMap`: the first certificate at another index that is a parent
  unfoldable pub find_parent : ℕ → Cert → ℕ → List Cert → Option Cert
  find_parent i cert j [] = none
  find_parent i cert j (parent ∷ ps) =
      let rest = find_parent i cert (suc j) ps in
      if i == j then rest else if is_parent cert parent then some parent else rest

  abbrev pub add_parent : Cert → Option Cert → List (ℕ × Cert) → List (ℕ × Cert)
  add_parent cert none m = m
  add_parent cert (some parent) m = (cert_fingerprint cert, parent) ∷ m

  unfoldable pub parent_loop : List Cert → ℕ → List Cert → List (ℕ × Cert) → List (ℕ × Cert)
  parent_loop all i [] m = m
  parent_loop all i (cert ∷ cs) m =
      parent_loop all (suc i) cs (add_parent cert (find_parent i cert 0 all) m)

  unfoldable pub build_parent_map : List Cert → List (ℕ × Cert)
  build_parent_map all = parent_loop all 0 all []
