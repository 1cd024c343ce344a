-- ===== src/X509Inspect/Chain.antt =====
-- chain.go: the leaf, the walk from the leaf to a root, the shortest path, and the text of a chain.
-- Notes for stderr are returned beside the result.
pub mod Leaf
pub mod Walk
pub mod Render
use Prim.Native.String
use spiffecli.Prelude.{
  ℕ, zero, suc, ◌-◌, Bool, true, false, not, ◌&&◌, ◌||◌, Option, none, some, List, [], ◌∷◌, ◌++◌,
  reverse, Result, ok, err, ◌>>=◌, String, mem, lookup, length, ◌==◌, if◌then◌else◌, ◌=ₛ◌, codes,
  ltb,
}
use spiffecli.Cert.{Cert, X509Lib}
use spiffecli.X509Inspect.Terminal.{sanitize_for_terminal}
use spiffecli.X509Inspect.Links.{
  cert_fingerprint, extract_spiffe_id, is_parent, is_self_signed, union_certs, build_parent_map,
}

-- The errors of the chain code. `index_out_of_range` stands for the panic of `chains[0]`;
-- `out_of_fuel` is no error of the program (`build_chain_correct`).
pub data ChainError : Type 0 where
  no_leaf no_root index_out_of_range out_of_fuel : ChainError
  verify_failed : String → ChainError

-- "note: … alternate path(s) of equal length", with their number.
pub data Note : Type 0 where
  alternate_paths : ℕ → Note

unfoldable pub first_not_ca : List Cert → Option Cert
first_not_ca [] = none
first_not_ca (c ∷ cs) = let rest = first_not_ca cs in if c.is_ca then rest else some c

unfoldable pub pick_leaf : List Cert → Result ChainError Cert
pick_leaf [] = err no_leaf
pick_leaf (c ∷ []) = ok c
pick_leaf (c ∷ d ∷ cs) = elim (first_not_ca (c ∷ d ∷ cs)) [ some l ↦ ok l | none ↦ ok c ]

abbrev pub alternates : ℕ → List (List Cert) → ℕ
alternates n [] = 0
alternates n (ch ∷ chs) = let rest = alternates n chs in if length ch == n then suc rest else rest

abbrev pub alternate_notes : ℕ → List Note
alternate_notes zero = []
alternate_notes (suc n) = alternate_paths (suc n) ∷ []

-- The first of the chains that `Verify` returned, root first, and the notes.
unfoldable pub select_first : List (List Cert) → List Note × Result ChainError (List Cert)
select_first [] = ([], err index_out_of_range)
select_first (first ∷ rest) = (alternate_notes (alternates (length first) rest), ok (reverse first))

abbrev pub indent : ℕ → List ℕ
indent zero = []
indent (suc depth) = b' ' ∷ b' ' ∷ indent depth

module _ (lib : X509Lib) where
  -- `identifyLeaf`: the SPIFFE leaf, else by the fingerprints claimed as parents
  unfoldable pub find_spiffe_leaf : List Cert → Option Cert
  find_spiffe_leaf [] = none
  find_spiffe_leaf (cert ∷ cs) =
      let rest = find_spiffe_leaf cs in
      if not (extract_spiffe_id lib cert =ₛ "") && not cert.is_ca then some cert else rest

  unfoldable pub claim_parents : ℕ → Cert → ℕ → List Cert → List ℕ → List ℕ
  claim_parents i cert j [] s = s
  claim_parents i cert j (parent ∷ ps) s = claim_parents i cert (suc j) ps (
      if i == j
      then s
      else if is_parent lib cert parent
      then cert_fingerprint lib parent ∷ s
      else s)

  unfoldable pub parent_fps : List Cert → ℕ → List Cert → List ℕ → List ℕ
  parent_fps all i [] s = s
  parent_fps all i (cert ∷ cs) s = parent_fps all (suc i) cs (claim_parents i cert 0 all s)

  unfoldable pub unclaimed : List ℕ → List Cert → List Cert
  unclaimed fps [] = []
  unclaimed fps (cert ∷ cs) =
      let rest = unclaimed fps cs in
      if mem (cert_fingerprint lib cert) fps then rest else cert ∷ rest

  unfoldable pub identify_leaf : List Cert → Result ChainError Cert
  identify_leaf all = elim (find_spiffe_leaf all) [
    | some cert ↦ ok cert
    | none ↦ pick_leaf (unclaimed (parent_fps all 0 all []) all)
  ]

  -- The walk of `buildChain` from `cur`, on fuel.
  unfoldable pub walk :
      ℕ → List (ℕ × Cert) → List ℕ → List Cert → Cert → Result ChainError (List Cert)
  walk zero parents visited chain cur = err out_of_fuel
  walk (suc fuel) parents visited chain cur =
      let fp = cert_fingerprint lib cur in
      if mem fp visited then ok chain else elim (lookup fp parents) [
        | none ↦ ok (chain ++ cur ∷ [])
        | some parent ↦ walk fuel parents (fp ∷ visited) (chain ++ cur ∷ []) parent
      ]

  unfoldable pub build_chain : List Cert → Result ChainError (List Cert)
  build_chain all = do
    leaf ← identify_leaf all
    chain ← walk (suc (length all)) (build_parent_map lib all) [] [] leaf
    ok (reverse chain)

  -- `shortestPath`: the pools, with whether a root was found
  unfoldable pub root_pool : List Cert → List Cert
  root_pool [] = []
  root_pool (cert ∷ cs) =
      let rest = root_pool cs in if is_self_signed lib cert then cert ∷ rest else rest

  unfoldable pub intermediate_pool : ℕ → List Cert → List Cert
  intermediate_pool leaf_fp [] = []
  intermediate_pool leaf_fp (cert ∷ cs) =
      let rest = intermediate_pool leaf_fp cs in
      if is_self_signed lib cert
      then rest
      else if not (cert_fingerprint lib cert == leaf_fp)
      then cert ∷ rest
      else rest

  unfoldable pub shortest_path : List Cert → List Note × Result ChainError (List Cert)
  unfolding select_first
  shortest_path all = elim (identify_leaf all) [
    | err e ↦ ([], err e)
    | ok leaf ↦ elim (root_pool all) [
      | [] ↦ ([], err no_root)
      | root ∷ roots ↦
          elim (lib.verify leaf (root ∷ roots)
            (intermediate_pool (cert_fingerprint lib leaf) all)) [
              | err e ↦ ([], err (verify_failed e))
              | ok chains ↦ select_first chains
            ]
    ]
  ]

  -- `renderChain`, with the lines from `depth` on; the bracket stands on the last one
  unfoldable pub id_bracket : Cert → List ℕ
  id_bracket cert =
      let id = extract_spiffe_id lib cert in
      if id =ₛ "" then [] else codes "  [" ++ (sanitize_for_terminal (codes id) ++ codes "]")

  unfoldable pub render_from : ℕ → List Cert → List ℕ
  render_from depth [] = []
  render_from depth (cert ∷ []) =
      indent depth ++ (sanitize_for_terminal cert.subject ++ (id_bracket cert ++ 10 ∷ []))
  render_from depth (cert ∷ next ∷ cs) =
      indent depth
      ++ (sanitize_for_terminal cert.subject ++ (10 ∷ render_from (suc depth) (next ∷ cs)))

  unfoldable pub render_chain : List Cert → List ℕ
  unfolding render_from id_bracket
  render_chain = render_from 0

  -- `convertCertsToChain`, with `opts.Chain.BundleCerts` and `opts.Chain.ShortestPath`
  unfoldable pub convert_certs_to_chain :
      List Cert → List Cert → Bool → List Note × Result ChainError (List ℕ)
  convert_certs_to_chain certs bundle_certs false = (
    [],
    elim (build_chain (union_certs lib certs bundle_certs)) [
      | err e ↦ err e
      | ok chain ↦ ok (render_chain chain)
    ],
  )
  convert_certs_to_chain certs bundle_certs true =
      let (notes, found) = shortest_path (union_certs lib certs bundle_certs) in
      (notes, elim found [ err e ↦ err e | ok chain ↦ ok (render_chain chain) ])
