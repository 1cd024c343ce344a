-- ===== src/X509Inspect/Tree/Forest.antt =====
-- The whole forest: `convertCertsToTree` draws one tree for each root.
use spiffecli.Prelude.{
  ℕ, suc, ◌≤◌, ◌<◌, ◌≡◌, ◌↔◌, inl, inr, refl, sym, true, Option, Bool-cases, none, some, List, [],
  ◌∷◌, arith, In, All, All_of_In, length, mem, ok, err, String, Option-cases, is_empty,
  if◌then◌else◌, one_of_iff, codes, Bool, false, not, ◌&&◌, any, ◌==◌, ==_iff, ◌⊎◌, ap, subst,
  Nodup, lookup,
}
use spiffecli.Cert.{Cert, X509Lib, Format}
use spiffecli.X509Inspect.Links.{cert_fingerprint, is_parent, union_certs, build_parent_map}
use spiffecli.X509Inspect.Links.Union.{fingerprints, union_certs-Nodup}
use spiffecli.X509Inspect.Links.Parents.{build_parent_map-listed}
use spiffecli.X509Inspect.Chain.Walk.{unvisited-nil}
use spiffecli.X509Inspect.Terminal.{sanitize_for_terminal}
use spiffecli.X509Inspect.Tree.{
  unknown_field, TreeNote, no_root_found, Op, append_item, node_label, TreeState, children_map,
  roots_loop, forest_roots, write_roots, first_unknown, is_allowed_tree_field,
  convert_certs_to_tree, allowed_tree_fields,
}
use spiffecli.X509Inspect.Tree.Children.{children-All, In-roots_loop}
use spiffecli.X509Inspect.Tree.Visit.{level, items, Grows, write_tree_node_first}

-- The operations that draw one tree over `n` certificates: every `UnIndent` closes an `Indent` and
-- none stays open; at least one certificate is drawn, and at most `n` are.
pub record IsTree (n : ℕ) (ops : List Op) : Type 0 where
  pub balanced : level 0 ops ≡ some 0
  pub nonempty : 0 < items ops
  pub bounded : items ops ≤ n

length-pos_of_mem : (f : ℕ) (xs : List ℕ) → mem f xs ≡ true → 0 < length xs
length-pos_of_mem f [] h = cc
length-pos_of_mem f (x ∷ xs) h = omega arith

-- Another certificate of the list issued `c`.
abbrev pub is_issued : X509Lib → List Cert → Cert → Bool
is_issued lib all c =
    any (λ p. not (cert_fingerprint lib p == cert_fingerprint lib c) && is_parent lib c p) all

-- The certificates among `cs` that no other certificate of the list issued.
abbrev pub unissued : X509Lib → List Cert → List Cert → List Cert
unissued lib all [] = []
unissued lib all (c ∷ cs) =
    let rest = unissued lib all cs in if is_issued lib all c then rest else c ∷ rest

-- These certificates, or the first one where there are none.
abbrev pub tree_roots : X509Lib → List Cert → List Cert
tree_roots lib [] = []
tree_roots lib (c ∷ cs) = elim (unissued lib (c ∷ cs) (c ∷ cs)) [
  | root ∷ roots ↦ root ∷ roots
  | [] ↦ c ∷ []
]

module _ (lib : X509Lib) (fmt : Format) (all : List Cert) (fields : List String) where
  -- One tree for each root in order, with the root's label first.
  abbrev pub IsForest : List Cert → List (List Op) → Type 0
  IsForest [] [] = Unit
  IsForest (root ∷ roots) (ops ∷ trees) =
      IsTree (length all) ops
      × ((rest : List Op) × (ops ≡ append_item (node_label lib fmt root fields) ∷ rest))
      × IsForest roots trees
  IsForest _ _ = ⊥

  IsTree-visit :
      (root : Cert) (notes : List TreeNote) (t : TreeState)
      → Grows lib all (children_map lib all) (record { visited = []; ops = []; notes = notes }) t
      → mem (cert_fingerprint lib root) t.visited ≡ true
      → IsTree (length all) t.ops
  IsTree-visit root notes t g m = record {
    balanced = rw g.extends (g.balanced 0);
    nonempty =
        rw g.extends
          (omega (arith, g.counted, length-pos_of_mem (cert_fingerprint lib root) t.visited m));
    bounded = rw g.extends (omega (arith, g.fewer, unvisited-nil lib all));
  }

  -- Every root gives a tree.
  pub write_roots_returns :
      (roots : List Cert) (notes : List TreeNote)
      → All (λ c. In c all) roots
      → (trees : List (List Op)) × (notes' : List TreeNote) × (write_roots lib fmt
            (suc (length all))
            (children_map lib all)
            fields
            roots
            notes
          ≡ some (trees, notes'))
        × IsForest roots trees
  unfolding write_roots
  write_roots_returns [] notes h = ([], notes, refl, tt)
  write_roots_returns (root ∷ roots) notes (listed, h) =
      let (t, e, g, m, rest, first) =
        write_tree_node_first lib all (children_map lib all) fmt fields (children-All lib all) root
          (record { visited = []; ops = []; notes = notes }) listed refl in
      let (trees, notes', e', each) = write_roots_returns roots t.notes h in
      (
        t.ops ∷ trees,
        notes',
        rw (e, e', write_roots),
        (IsTree-visit root notes t g m, (rest, first), each),
      )

module _ (lib : X509Lib) where
  is_issued-true :
      (c p : Cert) (cs : List Cert)
      → In p cs
      → is_parent lib c p ≡ true
      → (cert_fingerprint lib p == cert_fingerprint lib c) ≡ false
      → is_issued lib cs c ≡ true
  is_issued-true c p [] h issued other = absurd h
  is_issued-true c p (q ∷ cs) (inl e) issued other = rw (← e, issued, other) refl
  is_issued-true c p (q ∷ cs) (inr h) issued other =
      ground (arith, is_issued-true c p cs h issued other)

  is_issued-false :
      (c : Cert) (cs : List Cert)
      → All (λ p. (p ≡ c) ⊎ (is_parent lib c p ≡ false)) cs
      → is_issued lib cs c ≡ false
  is_issued-false c [] h = refl
  is_issued-false c (q ∷ cs) (inl same, h) = ground (
    arith,
    is_issued-false c cs h,
    ap (cert_fingerprint lib) same,
    ==_iff (cert_fingerprint lib q) (cert_fingerprint lib c),
  )
  is_issued-false c (q ∷ cs) (inr other, h) = ground (arith, is_issued-false c cs h, other)

  roots_loop-unissued :
      (all : List Cert)
      → Nodup (fingerprints lib all)
      → (cs : List Cert) → All (λ c. In c all) cs
      → roots_loop lib (build_parent_map lib all) cs ≡ unissued lib all cs
  unfolding roots_loop
  roots_loop-unissued all n [] h = refl
  roots_loop-unissued all n (c ∷ cs) (listed, h) =
      let at_c = build_parent_map-listed lib all c n listed in
      let ih = roots_loop-unissued all n cs h in
      elim (Option-cases (lookup (cert_fingerprint lib c) (build_parent_map lib all))) [
        | inl missing ↦ rw (missing, ih, roots_loop, is_issued-false c all (at_c.1 missing)) refl
        | inr (p, found) ↦
            let (here, issued, other) = at_c.0 p found in
            rw (found, ih, roots_loop, is_issued-true c p all here issued other) refl
      ]

  forest_roots-tree_roots :
      (all : List Cert)
      → Nodup (fingerprints lib all)
      → (forest_roots lib all).0 ≡ tree_roots lib all
  unfolding forest_roots
  forest_roots-tree_roots [] n = refl
  forest_roots-tree_roots (c ∷ cs) n =
      let same =
        roots_loop-unissued (c ∷ cs) n (c ∷ cs)
          (All_of_In (λ d. In d (c ∷ cs)) (c ∷ cs) (λ d h. h)) in
      rw (forest_roots, same) (picked c (unissued lib (c ∷ cs) (c ∷ cs)))
    where
      picked :
          (c : Cert) (us : List Cert)
          → (elim us as (λ x. List Cert × List TreeNote) [
            | root ∷ roots ↦ (root ∷ roots, [])
            | [] ↦ (c ∷ [], no_root_found c.serial (cert_fingerprint lib c) ∷ [])
          ]).0
            ≡ elim us [ root ∷ roots ↦ root ∷ roots | [] ↦ c ∷ [] ]
      picked c [] = refl
      picked c (u ∷ us) = refl

first_unknown-eq-none :
    (fields : List String)
    → (first_unknown fields ≡ none) ↔ All (λ f. In f allowed_tree_fields) fields
unfolding first_unknown is_allowed_tree_field
first_unknown-eq-none [] = (λ _. tt, λ _. refl)
first_unknown-eq-none (f ∷ fs) =
    ground (arith, first_unknown-eq-none fs, one_of_iff f allowed_tree_fields)

forest_roots-All : (lib : X509Lib) (all : List Cert) → All (λ c. In c all) (forest_roots lib all).0
unfolding forest_roots
forest_roots-All lib [] = tt
forest_roots-All lib (synth ∷ rest) =
    All_of_In (λ c. In c (synth ∷ rest)) (forest_roots lib (synth ∷ rest)).0 (λ c h. listed c h)
  where
    roots : List Cert
    roots = roots_loop lib (build_parent_map lib (synth ∷ rest)) (synth ∷ rest)

    listed : (c : Cert) → In c (forest_roots lib (synth ∷ rest)).0 → In c (synth ∷ rest)
    listed c h =
        ground (arith, In-roots_loop lib (build_parent_map lib (synth ∷ rest)) (synth ∷ rest) c)

-- `convertCertsToTree` with allowed fields, or none: it returns, and draws one tree for each root of
-- the union in order: for each certificate that no other certificate of the union is a parent for, or
-- for the first certificate where there is no such one. A tree begins with the label of its root, is
-- balanced, and draws at most as many certificates as the union has.
pub convert_certs_to_tree_returns :
    (lib : X509Lib) (fmt : Format) (certs bundle_certs : List Cert) (fields : List String)
    → All (λ f. In f allowed_tree_fields) fields
    → (trees : List (List Op)) × (notes : List TreeNote) × (convert_certs_to_tree lib fmt certs
          bundle_certs fields
        ≡ ok (trees, notes))
      × IsForest lib fmt
          (union_certs lib certs bundle_certs)
          (if is_empty fields then "subject" ∷ [] else fields)
          (tree_roots lib (union_certs lib certs bundle_certs))
          trees
unfolding convert_certs_to_tree
convert_certs_to_tree_returns lib fmt certs bundle_certs fields h =
    let all = union_certs lib certs bundle_certs in
    let used = if is_empty fields then "subject" ∷ [] else fields in
    let (trees, notes, e, each) =
      write_roots_returns lib fmt all used (forest_roots lib all).0 (forest_roots lib all).1
        (forest_roots-All lib all) in
    (
      trees,
      notes,
      rw (known fields h, e, convert_certs_to_tree),
      subst (λ r. IsForest lib fmt all used r trees)
          (forest_roots-tree_roots lib all (union_certs-Nodup lib certs bundle_certs)) each,
    )
  where
    known :
        (fs : List String)
        → All (λ f. In f allowed_tree_fields) fs
        → first_unknown (if is_empty fs then "subject" ∷ [] else fs) ≡ none
    known [] _ = (first_unknown-eq-none ("subject" ∷ [])).1 (inl refl, tt)
    known (f ∷ fs) k = (first_unknown-eq-none (f ∷ fs)).1 k

first_unknown-eq-some :
    (fields : List String) (f : String)
    → first_unknown fields ≡ some f
    → In f fields × ¬ In f allowed_tree_fields
unfolding first_unknown is_allowed_tree_field
first_unknown-eq-some [] f h = cc
first_unknown-eq-some (g ∷ gs) f h = elim (Bool-cases (is_allowed_tree_field g)) [
  | inl known ↦
      let (listed, unknown) = first_unknown-eq-some gs f (rw (known, first_unknown) at h) in
      (inr listed, unknown)
  | inr unknown ↦
      let made : ◌≡◌ {A = Option String} (some g) (some f) = rw (unknown, first_unknown) at h in
      let same : g ≡ f = ground (arith, made) in
      (inl (sym same), λ k. cc ((one_of_iff g allowed_tree_fields).1 (rw same k), unknown))
]

-- Where a field is not allowed, `convertCertsToTree` fails, whatever the certificates are: with the
-- error for an unknown field, which holds one of the fields that are not allowed, passed through
-- `sanitizeForTerminal`.
pub convert_certs_to_tree_refuses :
    (lib : X509Lib) (fmt : Format) (certs bundle_certs : List Cert) (fields : List String)
    → ¬ All (λ f. In f allowed_tree_fields) fields
    → (f : String) × In f fields
      × ¬ In f allowed_tree_fields
      × (convert_certs_to_tree lib fmt certs bundle_certs fields
          ≡ err (unknown_field (sanitize_for_terminal (codes f))))
unfolding convert_certs_to_tree
convert_certs_to_tree_refuses lib fmt certs bundle_certs [] h = absurd (h tt)
convert_certs_to_tree_refuses lib fmt certs bundle_certs (g ∷ gs) h =
    elim (Option-cases (first_unknown (g ∷ gs))) [
      | inl none_unknown ↦ absurd (h ((first_unknown-eq-none (g ∷ gs)).0 none_unknown))
      | inr (f, e) ↦
          let (listed, unknown) = first_unknown-eq-some (g ∷ gs) f e in
          (f, listed, unknown, rw (e, convert_certs_to_tree))
    ]
