-- ===== src/X509Inspect/Tree/Children.antt =====
-- The children map is the parent map turned round, and the roots are the certificates without an
-- entry in the parent map.
use spiffecli.Prelude.{
  ℕ, ◌≡◌, ◌↔◌, ◌⊎◌, inl, inr, Option, none, some, List, [], ◌∷◌, ◌++◌, arith, In, All, All_of_In,
  lookup, ==_iff, Option-cases,
}
use spiffecli.Cert.{Cert, X509Lib}
use spiffecli.X509Inspect.Links.{cert_fingerprint, build_parent_map}
use spiffecli.X509Inspect.Tree.{get_children, add_child, children_loop, children_map, roots_loop}

In-concat : {A : Type 0} (a b : A) (xs : List A) → In a (xs ++ b ∷ []) ↔ (In a xs ⊎ (a ≡ b))
In-concat a b [] = ground arith
In-concat a b (x ∷ xs) = ground (arith, In-concat a b xs)

module _ (lib : X509Lib) where
  -- The fingerprint of the parent that the map gives a certificate.
  abbrev pub parent_fp : List (ℕ × Cert) → Cert → Option ℕ
  parent_fp parents c = elim (lookup (cert_fingerprint lib c) parents) [
    | none ↦ none
    | some p ↦ some (cert_fingerprint lib p)
  ]

  In-children_loop :
      (parents : List (ℕ × Cert)) (cs : List Cert) (m : List (ℕ × List Cert)) (f : ℕ) (c : Cert)
      → In c (get_children f (children_loop lib parents cs m))
        ↔ (In c (get_children f m) ⊎ In c cs × (parent_fp parents c ≡ some f))
  unfolding children_loop
  In-children_loop parents [] m f c = (inl, λ h. elim h [ inl k ↦ k | inr k ↦ absurd k.0 ])
  In-children_loop parents (x ∷ cs) m f c =
      elim (Option-cases (lookup (cert_fingerprint lib x) parents)) [
        | inl root ↦ rw root (ground (arith, In-children_loop parents cs m f c))
        | inr (p, e) ↦ rw e (
            ground (
              arith,
              In-children_loop parents cs (add_child (cert_fingerprint lib p) x m) f c,
              In-concat c x (get_children (cert_fingerprint lib p) m),
              ==_iff f (cert_fingerprint lib p),
            ))
      ]

  -- `children[fp]` holds exactly the listed certificates whose parent has the fingerprint `fp`.
  pub In-children_map :
      (all : List Cert) (f : ℕ) (c : Cert)
      → In c (get_children f (children_map lib all))
        ↔ (In c all × (parent_fp (build_parent_map lib all) c ≡ some f))
  unfolding children_map
  In-children_map all f c = ground (arith, In-children_loop (build_parent_map lib all) all [] f c)

  pub children-All :
      (all : List Cert) (f : ℕ) → All (λ c. In c all) (get_children f (children_map lib all))
  children-All all f =
      All_of_In (λ c. In c all) (get_children f (children_map lib all))
        (λ c h. ((In-children_map all f c).0 h).0)

  -- A listed certificate is a root, or a child of exactly its parent.
  pub In-roots_loop :
      (parents : List (ℕ × Cert)) (cs : List Cert) (c : Cert)
      → In c (roots_loop lib parents cs) ↔ (In c cs × (parent_fp parents c ≡ none))
  unfolding roots_loop
  In-roots_loop parents [] c = (λ h. absurd h, λ h. absurd h.0)
  In-roots_loop parents (x ∷ cs) c = elim (Option-cases (lookup (cert_fingerprint lib x) parents)) [
    | inl root ↦ rw (root, roots_loop) (ground (arith, In-roots_loop parents cs c))
    | inr (p, e) ↦ rw (e, roots_loop) (ground (arith, In-roots_loop parents cs c))
  ]
