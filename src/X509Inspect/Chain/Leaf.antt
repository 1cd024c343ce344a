-- ===== src/X509Inspect/Chain/Leaf.antt =====
-- What `identifyLeaf` chooses.
use spiffecli.Prelude.{
  ℕ, suc, ◌+◌, ◌≡◌, ◌≢◌, refl, sym, ◌⊎◌, inl, inr, true, false, none, some, List, [], ◌∷◌, ◌++◌, ok,
  arith, In, All, All-In, All_of_In, length, mem, ◌==◌, ==_iff, =ₛ_iff, if◌then◌else◌, Bool-cases,
  Option-cases, subst, ButAt, ButAt-split, In-split,
}
use spiffecli.Cert.{Cert, X509Lib}
use spiffecli.X509Inspect.Links.{cert_fingerprint, extract_spiffe_id, is_parent}
use spiffecli.X509Inspect.Chain.{
  find_spiffe_leaf, claim_parents, parent_fps, unclaimed, first_not_ca, pick_leaf, identify_leaf,
}

first_not_ca_sound : (cs : List Cert) (l : Cert) → first_not_ca cs ≡ some l → In l cs
unfolding first_not_ca
first_not_ca_sound [] l h = cc
first_not_ca_sound (c ∷ cs) l h = ground (arith, first_not_ca_sound cs l)

pick_leaf_sound : (cs : List Cert) (l : Cert) → pick_leaf cs ≡ ok l → In l cs
unfolding pick_leaf
pick_leaf_sound [] l h = cc
pick_leaf_sound (c ∷ []) l h = ground arith
pick_leaf_sound (c ∷ d ∷ cs) l h = ground (arith, first_not_ca_sound (c ∷ d ∷ cs) l)

pick_leaf_total : (c : Cert) (cs : List Cert) → (l : Cert) × (pick_leaf (c ∷ cs) ≡ ok l)
unfolding pick_leaf
pick_leaf_total c [] = (c, refl)
pick_leaf_total c (d ∷ cs) = elim (Option-cases (first_not_ca (c ∷ d ∷ cs))) [
  | inl e ↦ (c, rw (e, pick_leaf))
  | inr (l, e) ↦ (l, rw (e, pick_leaf))
]

module _ (lib : X509Lib) where
  -- A certificate of a workload: a SPIFFE ID, and no authority.
  abbrev pub IsSpiffeLeaf : Cert → Type 0
  IsSpiffeLeaf c = (extract_spiffe_id lib c ≢ "") × (c.is_ca ≡ false)

  find_spiffe_leaf_sound :
      (all : List Cert) (l : Cert)
      → find_spiffe_leaf lib all ≡ some l
      → In l all × (extract_spiffe_id lib l ≢ "") × (l.is_ca ≡ false)
  unfolding find_spiffe_leaf
  find_spiffe_leaf_sound [] l h = cc
  find_spiffe_leaf_sound (c ∷ cs) l h =
      ground (arith, find_spiffe_leaf_sound cs l, =ₛ_iff (extract_spiffe_id lib c) "")

  find_spiffe_leaf_complete :
      (all : List Cert)
      → find_spiffe_leaf lib all ≡ none
      → All (λ c. (extract_spiffe_id lib c ≡ "") ⊎ (c.is_ca ≡ true)) all
  unfolding find_spiffe_leaf
  find_spiffe_leaf_complete [] h = tt
  find_spiffe_leaf_complete (c ∷ cs) h = (
    ground (arith, =ₛ_iff (extract_spiffe_id lib c) ""),
    find_spiffe_leaf_complete cs (ground arith),
  )

  In-unclaimed :
      (fps : List ℕ) (all : List Cert) (l : Cert)
      → In l (unclaimed lib fps all)
      → In l all × (mem (cert_fingerprint lib l) fps ≡ false)
  unfolding unclaimed
  In-unclaimed fps [] l h = absurd h
  In-unclaimed fps (c ∷ cs) l h = elim (Bool-cases (mem (cert_fingerprint lib c) fps)) [
    | inl claimed ↦
        let (listed, fresh) = In-unclaimed fps cs l (rw (claimed, unclaimed) at h) in
        (inr listed, fresh)
    | inr free ↦
        let kept : In l (c ∷ unclaimed lib fps cs) = rw (free, unclaimed) at h in
        elim kept [
          | inl e ↦ (inl e, subst (λ x. mem (cert_fingerprint lib x) fps ≡ false) (sym e) free)
          | inr later ↦ let (listed, fresh) = In-unclaimed fps cs l later in (inr listed, fresh)
        ]
  ]

  -- What the claims say of a fingerprint that they lack.
  abbrev Spares : ℕ → Cert → Cert → Type 0
  Spares f c p = (cert_fingerprint lib p ≢ f) ⊎ (is_parent lib c p ≡ false)

  mem-claim_parents :
      (f i : ℕ) (c : Cert) (j : ℕ) (ps : List Cert) (s : List ℕ)
      → mem f (claim_parents lib i c j ps s) ≡ false
      → mem f s ≡ false
  unfolding claim_parents
  mem-claim_parents f i c j [] s h = h
  mem-claim_parents f i c j (p ∷ ps) s h =
      let before =
        mem-claim_parents f i c (suc j) ps
          (if i == j then s else if is_parent lib c p then cert_fingerprint lib p ∷ s else s) h in
      ground arith

  claim_parents_complete :
      (f i : ℕ) (c : Cert) (j : ℕ) (ps : List Cert) (s : List ℕ)
      → mem f (claim_parents lib i c j ps s) ≡ false
      → ButAt (Spares f c) i j ps
  unfolding claim_parents
  claim_parents_complete f i c j [] s h = tt
  claim_parents_complete f i c j (p ∷ ps) s h =
      let s' = if i == j then s else if is_parent lib c p then cert_fingerprint lib p ∷ s else s in
      let before = mem-claim_parents f i c (suc j) ps s' h in
      (
        ground (arith, ==_iff i j, ==_iff f (cert_fingerprint lib p)),
        claim_parents_complete f i c (suc j) ps s' h,
      )

  mem-parent_fps :
      (f : ℕ) (all : List Cert) (i : ℕ) (cs : List Cert) (s : List ℕ)
      → mem f (parent_fps lib all i cs s) ≡ false
      → mem f s ≡ false
  unfolding parent_fps
  mem-parent_fps f all i [] s h = h
  mem-parent_fps f all i (c ∷ cs) s h =
      mem-claim_parents f i c 0 all s
        (mem-parent_fps f all (suc i) cs (claim_parents lib i c 0 all s) h)

  parent_fps_complete :
      (f : ℕ) (all : List Cert) (i : ℕ) (pre post : List Cert) (c : Cert) (s : List ℕ)
      → mem f (parent_fps lib all i (pre ++ c ∷ post) s) ≡ false
      → ButAt (Spares f c) (i + length pre) 0 all
  unfolding parent_fps
  parent_fps_complete f all i [] post c s h =
      let at_i : i + 0 ≡ i = omega arith in
      rw at_i (
        claim_parents_complete f i c 0 all s
          (mem-parent_fps f all (suc i) post (claim_parents lib i c 0 all s) h))
  parent_fps_complete f all i (d ∷ pre) post c s h =
      let shift : i + suc (length pre) ≡ suc i + length pre = omega arith in
      rw shift (parent_fps_complete f all (suc i) pre post c (claim_parents lib i d 0 all s) h)

  -- An unclaimed certificate is a parent of no other listed one.
  unclaimed_no_parent :
      (all : List Cert) (l c : Cert)
      → mem (cert_fingerprint lib l) (parent_fps lib all 0 all []) ≡ false
      → In l all
      → In c all
      → (l ≡ c) ⊎ (is_parent lib c l ≡ false)
  unclaimed_no_parent all l c free listed h =
      let f = cert_fingerprint lib l in
      let (pre, post, e) = In-split c all h in
      let but =
        parent_fps_complete f all 0 pre post c []
          (subst (λ cs. mem f (parent_fps lib all 0 cs []) ≡ false) e free) in
      let every =
        ButAt-split (Spares f c) (0 + length pre) c 0 pre post refl
          (subst (λ cs. ButAt (Spares f c) (0 + length pre) 0 cs) e but) in
      elim (All-In (λ p. (p ≡ c) ⊎ Spares f c p) (pre ++ c ∷ post) l every
        (subst (λ cs. In l cs) e listed)) [
          | inl same ↦ inl same
          | inr (inl other) ↦ absurd (other refl)
          | inr (inr no_parent) ↦ inr no_parent
        ]

  -- What `identifyLeaf` says of its choice.
  pub record IsLeaf (all : List Cert) (l : Cert) : Type 0 where
    pub listed : In l all
    pub reason :
        IsSpiffeLeaf l
        ⊎ All (λ c. (extract_spiffe_id lib c ≡ "") ⊎ (c.is_ca ≡ true)) all
          × All (λ c. (l ≡ c) ⊎ (is_parent lib c l ≡ false)) all

  -- The leaf is a listed certificate. It has a SPIFFE ID and is no CA; or no listed certificate is
  -- such, and the leaf is a parent of no other one.
  pub identify_leaf_sound :
      (all : List Cert) (l : Cert) → identify_leaf lib all ≡ ok l → IsLeaf all l
  unfolding identify_leaf
  identify_leaf_sound all l h = elim (Option-cases (find_spiffe_leaf lib all)) [
    | inr (c, found) ↦
        let same : c ≡ l = ground arith in
        let (listed, named, leaf) =
          find_spiffe_leaf_sound all l
            (subst (λ x. find_spiffe_leaf lib all ≡ some x) same found) in
        record { listed = listed; reason = inl (named, leaf) }
    | inl missing ↦
        let fps = parent_fps lib all 0 all [] in
        let (listed, free) =
          In-unclaimed fps all l
            (pick_leaf_sound (unclaimed lib fps all) l (rw (missing, identify_leaf) at h)) in
        record {
          listed = listed;
          reason = inr (
            find_spiffe_leaf_complete all missing,
            All_of_In (λ c. (l ≡ c) ⊎ (is_parent lib c l ≡ false)) all
                (λ c k. unclaimed_no_parent all l c free listed k),
          );
        }
  ]
