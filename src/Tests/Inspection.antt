-- ===== src/Tests/Inspection.antt =====
-- Chains, trees and SVID checks of the two certificates.
use spiffecli.Prelude.{
  ℕ, ◌≡◌, ◌↔◌, ◌||◌, inl, inr, refl, true, none, some, List, [], ◌∷◌, ◌++◌, ok, err, Nodup, In, All,
  lookup, mem, one_of_iff,
}
use spiffecli.Cert.{Cert, SpiffeId}
use spiffecli.X509Inspect.Terminal.{newlines, IsPlain}
use spiffecli.X509Inspect.Links.{
  cert_fingerprint, extract_spiffe_id, extract_from, union_certs, build_parent_map,
}
use spiffecli.X509Inspect.Links.Union.{fingerprints, union_certs_exact}
use spiffecli.X509Inspect.Links.Parents.{first_issuer, build_parent_map_exact}
use spiffecli.X509Inspect.Chain.{
  no_leaf, find_spiffe_leaf, pick_leaf, unclaimed, identify_leaf, build_chain, render_chain,
}
use spiffecli.X509Inspect.Chain.Leaf.{IsLeaf, identify_leaf_sound}
use spiffecli.X509Inspect.Chain.Walk.{IsPathToRoot, build_chain_correct}
use spiffecli.X509Inspect.Chain.Render.{render_chain-lines}
use spiffecli.X509Inspect.Tree.{Op, TreeNote, allowed_tree_fields, convert_certs_to_tree}
use spiffecli.X509Inspect.Tree.Forest.{IsForest, tree_roots, convert_certs_to_tree_returns}
use spiffecli.X509Inspect.Svid.{check_is_svid}
use spiffecli.X509Inspect.Svid.Conformance.{Conforms, check_is_svid_iff}
use spiffecli.X509Inspect.Certificate.{spiffe_info}
use spiffecli.X509Inspect.Certificate.Identity.{
  only_id, only_error, valid_ids, first_bad, spiffe_info_correct,
}
use spiffecli.Tests.Fixtures.{root, leaf, both, lib, fmt}

both-Nodup : Nodup (fingerprints lib both)
unfolding cert_fingerprint
both-Nodup = (refl, (refl, tt))

leaf_found : identify_leaf lib both ≡ ok leaf
unfolding identify_leaf find_spiffe_leaf extract_spiffe_id extract_from
leaf_found = refl

no_leaf_found : identify_leaf lib [] ≡ err no_leaf
unfolding identify_leaf find_spiffe_leaf unclaimed pick_leaf
no_leaf_found = refl

build_chain_correct_example :
    (chain : List Cert) × (build_chain lib both ≡ ok chain) × IsPathToRoot lib both leaf chain
build_chain_correct_example = build_chain_correct lib both leaf both-Nodup leaf_found

identify_leaf_sound_example : IsLeaf lib both leaf
identify_leaf_sound_example = identify_leaf_sound lib both leaf leaf_found

union_certs_exact_example :
    Nodup (fingerprints lib (union_certs lib both both))
    × ((f : ℕ)
        → mem f (fingerprints lib (union_certs lib both both))
          ≡ (mem f (fingerprints lib both) || mem f (fingerprints lib both)))
    × ((c : Cert) → In c (union_certs lib both both) → In c (both ++ both))
union_certs_exact_example = union_certs_exact lib both both

build_parent_map_exact_example :
    lookup (cert_fingerprint lib leaf) (build_parent_map lib both)
    ≡ first_issuer lib leaf (root ∷ [])
build_parent_map_exact_example = build_parent_map_exact lib [] (root ∷ []) leaf both-Nodup

render_chain-lines_example :
    (newlines (render_chain lib both) ≡ 2) × All IsPlain (render_chain lib both)
render_chain-lines_example = render_chain-lines lib both

convert_certs_to_tree_returns_example :
    (trees : List (List Op)) × (notes : List TreeNote) × (convert_certs_to_tree lib fmt both []
        ("serial" ∷ [])
      ≡ ok (trees, notes))
    × IsForest lib fmt
        (union_certs lib both [])
        ("serial" ∷ [])
        (tree_roots lib (union_certs lib both []))
        trees
convert_certs_to_tree_returns_example =
    convert_certs_to_tree_returns lib fmt both [] ("serial" ∷ []) (inr (inr (inr (inl refl))), tt)

not_allowed : ¬ All (λ f. In f allowed_tree_fields) ("colour" ∷ [])
not_allowed (h, _) = cc ((one_of_iff "colour" allowed_tree_fields).1 h)

check_is_svid_iff_example : ((check_is_svid lib leaf).0 ≡ true) ↔ Conforms lib leaf
check_is_svid_iff_example = check_is_svid_iff lib leaf

spiffe_info_correct_example :
    ((sid : SpiffeId)
      → valid_ids lib leaf.uris ≡ sid ∷ []
      → (spiffe_info lib leaf ≡ only_id lib sid) × (extract_spiffe_id lib leaf ≡ sid.text))
    × ((a b : SpiffeId) (more : List SpiffeId)
        → valid_ids lib leaf.uris ≡ a ∷ b ∷ more
        → (spiffe_info lib leaf
            ≡ only_error lib "MULTIPLE_SPIFFE_IDS" "certificate contains multiple SPIFFE IDs" "")
          × (extract_spiffe_id lib leaf ≡ a.text))
    × (valid_ids lib leaf.uris ≡ []
        → (spiffe_info lib leaf ≡ elim (first_bad lib leaf.uris) [
          | none ↦ only_error lib "" "" ""
          | some e ↦ only_error lib "INVALID_SPIFFE_URI" "URI is not a valid SPIFFE ID" e
        ])
          × (extract_spiffe_id lib leaf ≡ ""))
spiffe_info_correct_example = spiffe_info_correct lib leaf
