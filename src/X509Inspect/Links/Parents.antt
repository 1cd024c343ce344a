-- ===== src/X509Inspect/Links/Parents.antt =====
-- `buildParentMap` maps a certificate to the first other one that is a parent of it.
use spiffecli.Prelude.{
  ℕ, suc, ◌+◌, ◌<◌, length, ◌≡◌, refl, sym, ap, ◌∙◌, ◌⊎◌, inl, inr, true, false, Option, none, some,
  List, [], ◌∷◌, ◌++◌, arith, In, All, mem, Nodup, lookup, Bool-cases, ==_iff, ◌==◌, subst,
  In-split, if◌then◌else◌,
}
use spiffecli.Cert.{Cert, X509Lib}
use spiffecli.X509Inspect.Links.{
  cert_fingerprint, is_parent, find_parent, add_parent, parent_loop, build_parent_map,
}
use spiffecli.X509Inspect.Links.Union.{fingerprints}

module _ (lib : X509Lib) where
  pub In-fingerprints :
      (c : Cert) (cs : List Cert)
      → In c cs
      → mem (cert_fingerprint lib c) (fingerprints lib cs) ≡ true
  In-fingerprints c [] h = absurd h
  In-fingerprints c (d ∷ cs) (inl e) = ground (arith, ap (cert_fingerprint lib) e)
  In-fingerprints c (d ∷ cs) (inr h) = ground (arith, In-fingerprints c cs h)

  -- The first of some certificates that issued `c`.
  abbrev pub first_issuer : Cert → List Cert → Option Cert
  first_issuer c [] = none
  first_issuer c (p ∷ ps) =
      let rest = first_issuer c ps in if is_parent lib c p then some p else rest

  find_parent-after :
      (i : ℕ) (c : Cert) (j : ℕ) (ps : List Cert)
      → i < j
      → find_parent lib i c j ps ≡ first_issuer c ps
  unfolding find_parent
  find_parent-after i c j [] lt = refl
  find_parent-after i c j (p ∷ ps) lt =
      ground (arith, find_parent-after i c (suc j) ps (omega arith), ==_iff i j)

  -- The certificate's own position is passed over.
  find_parent-but :
      (i : ℕ) (c : Cert) (j : ℕ) (pre post : List Cert)
      → i ≡ j + length pre
      → find_parent lib i c j (pre ++ c ∷ post) ≡ first_issuer c (pre ++ post)
  unfolding find_parent
  find_parent-but i c j [] post e =
      ground (arith, find_parent-after i c (suc j) post (omega arith), ==_iff i j)
  find_parent-but i c j (p ∷ pre) post e =
      ground (arith, find_parent-but i c (suc j) pre post (omega arith), ==_iff i j)

  lookup-add_parent_other :
      (c : Cert) (o : Option Cert) (m : List (ℕ × Cert)) (f : ℕ)
      → (f == cert_fingerprint lib c) ≡ false
      → lookup f (add_parent lib c o m) ≡ lookup f m
  lookup-add_parent_other c none m f other = refl
  lookup-add_parent_other c (some p) m f other = rw other refl

  lookup-add_parent_own :
      (c : Cert) (o : Option Cert) (m : List (ℕ × Cert))
      → lookup (cert_fingerprint lib c) m ≡ none
      → lookup (cert_fingerprint lib c) (add_parent lib c o m) ≡ o
  lookup-add_parent_own c none m new = new
  lookup-add_parent_own c (some p) m new =
      rw ((==_iff (cert_fingerprint lib c) (cert_fingerprint lib c)).1 refl) refl

  -- Other certificates leave an entry alone.
  lookup-parent_loop_other :
      (all : List Cert) (i : ℕ) (cs : List Cert) (m : List (ℕ × Cert)) (f : ℕ)
      → mem f (fingerprints lib cs) ≡ false
      → lookup f (parent_loop lib all i cs m) ≡ lookup f m
  unfolding parent_loop
  lookup-parent_loop_other all i [] m f h = refl
  lookup-parent_loop_other all i (c ∷ cs) m f h =
      let o = find_parent lib i c 0 all in
      lookup-parent_loop_other all (suc i) cs (add_parent lib c o m) f (ground (arith, h))
      ∙ lookup-add_parent_other c o m f (ground (arith, h))

  differs :
      (c d : Cert) (cs : List Cert)
      → In c cs
      → mem (cert_fingerprint lib d) (fingerprints lib cs) ≡ false
      → (cert_fingerprint lib c == cert_fingerprint lib d) ≡ false
  differs c d cs h new = elim (Bool-cases (cert_fingerprint lib c == cert_fingerprint lib d)) [
    | inr other ↦ other
    | inl e ↦
        let same : cert_fingerprint lib c ≡ cert_fingerprint lib d = (==_iff _ _).0 e in
        absurd (cc (In-fingerprints c cs h, same, new))
  ]

  pub In-middle : (pre post : List Cert) (c : Cert) → In c (pre ++ c ∷ post)
  In-middle [] post c = inl refl
  In-middle (d ∷ pre) post c = inr (In-middle pre post c)

  lookup-parent_loop_own :
      (all : List Cert) (i : ℕ) (pre post : List Cert) (c : Cert) (m : List (ℕ × Cert))
      → Nodup (fingerprints lib (pre ++ c ∷ post))
      → lookup (cert_fingerprint lib c) m ≡ none
      → lookup (cert_fingerprint lib c) (parent_loop lib all i (pre ++ c ∷ post) m)
        ≡ find_parent lib (i + length pre) c 0 all
  unfolding parent_loop
  lookup-parent_loop_own all i [] post c m (new, n) missing =
      let at_i : i + 0 ≡ i = omega arith in
      let o = find_parent lib i c 0 all in
      rw at_i (
        lookup-parent_loop_other all (suc i) post (add_parent lib c o m) (cert_fingerprint lib c)
          new
        ∙ lookup-add_parent_own c o m missing)
  lookup-parent_loop_own all i (d ∷ pre) post c m (new, n) missing =
      let shift : i + suc (length pre) ≡ suc i + length pre = omega arith in
      let o = find_parent lib i d 0 all in
      let other = differs c d (pre ++ c ∷ post) (In-middle pre post c) new in
      rw shift (
        lookup-parent_loop_own all (suc i) pre post c (add_parent lib d o m) n
          (lookup-add_parent_other d o m (cert_fingerprint lib c) other ∙ missing))

  -- The parent map is exact on a list of different certificates: the entry of a certificate is the
  -- first of the others in the list that is a parent of it, and there is no entry where none of them is.
  pub build_parent_map_exact :
      (pre post : List Cert) (c : Cert)
      → Nodup (fingerprints lib (pre ++ c ∷ post))
      → lookup (cert_fingerprint lib c) (build_parent_map lib (pre ++ c ∷ post))
        ≡ first_issuer c (pre ++ post)
  unfolding build_parent_map
  build_parent_map_exact pre post c n =
      let all = pre ++ c ∷ post in
      lookup-parent_loop_own all 0 pre post c [] n refl
      ∙ find_parent-but (0 + length pre) c 0 pre post refl

  abbrev pub IsNoParent : Cert → Cert → Type 0
  IsNoParent c p = is_parent lib c p ≡ false

  first_issuer-some :
      (c : Cert) (ps : List Cert) (p : Cert)
      → first_issuer c ps ≡ some p
      → In p ps × (is_parent lib c p ≡ true)
  first_issuer-some c [] p h = cc
  first_issuer-some c (q ∷ ps) p h = ground (arith, first_issuer-some c ps p)

  first_issuer-none :
      (c : Cert) (pre post : List Cert)
      → first_issuer c (pre ++ post) ≡ none
      → All (λ p. (p ≡ c) ⊎ IsNoParent c p) (pre ++ c ∷ post)
  first_issuer-none c [] [] h = (inl refl, tt)
  first_issuer-none c [] (q ∷ post) h =
      let (_, rest) = first_issuer-none c [] post (ground (arith, h)) in
      (inl refl, (inr (ground (arith, h)), rest))
  first_issuer-none c (q ∷ pre) post h =
      (inr (ground (arith, h)), first_issuer-none c pre post (ground (arith, h)))

  -- Another place of the list holds another fingerprint.
  In-others :
      (pre post : List Cert) (c p : Cert)
      → Nodup (fingerprints lib (pre ++ c ∷ post))
      → In p (pre ++ post)
      → In p (pre ++ c ∷ post) × ((cert_fingerprint lib p == cert_fingerprint lib c) ≡ false)
  In-others [] post c p (new, n) h = (inr h, differs p c post h new)
  In-others (d ∷ pre) post c p (new, n) (inl e) =
      let other = differs c d (pre ++ c ∷ post) (In-middle pre post c) new in
      (
        inl e,
        ground (
          arith,
          other,
          ap (cert_fingerprint lib) e,
          ==_iff (cert_fingerprint lib p) (cert_fingerprint lib c),
          ==_iff (cert_fingerprint lib c) (cert_fingerprint lib d),
        ),
      )
  In-others (d ∷ pre) post c p (new, n) (inr h) =
      let (listed, other) = In-others pre post c p n h in (inr listed, other)

  -- The map at a listed certificate: a parent is listed and another certificate, and without one the
  -- list holds no parent but itself.
  pub build_parent_map-listed :
      (all : List Cert) (c : Cert)
      → Nodup (fingerprints lib all)
      → In c all
      → ((p : Cert)
          → lookup (cert_fingerprint lib c) (build_parent_map lib all) ≡ some p
          → In p all
            × (is_parent lib c p ≡ true)
            × ((cert_fingerprint lib p == cert_fingerprint lib c) ≡ false))
        × (lookup (cert_fingerprint lib c) (build_parent_map lib all) ≡ none
            → All (λ p. (p ≡ c) ⊎ (is_parent lib c p ≡ false)) all)
  build_parent_map-listed all c n h =
      let (pre, post, e) = In-split c all h in
      let n' = subst (λ l. Nodup (fingerprints lib l)) e n in
      let exact = build_parent_map_exact pre post c n' in
      (
        λ p found.
            let found' : lookup (cert_fingerprint lib c) (build_parent_map lib (pre ++ c ∷ post))
                ≡ some p =
              subst (λ l. lookup (cert_fingerprint lib c) (build_parent_map lib l) ≡ some p) e
                found in
            let (other, issued) = first_issuer-some c (pre ++ post) p (sym exact ∙ found') in
            let (listed, differs') = In-others pre post c p n' other in
            (subst (λ l. In p l) (sym e) listed, issued, differs'),
        λ missing.
            let missing' : lookup (cert_fingerprint lib c) (build_parent_map lib (pre ++ c ∷ post))
                ≡ none =
              subst (λ l. lookup (cert_fingerprint lib c) (build_parent_map lib l) ≡ none) e
                missing in
            subst (λ l. All (λ p. (p ≡ c) ⊎ IsNoParent c p) l) (sym e)
              (first_issuer-none c pre post (sym exact ∙ missing')),
      )
