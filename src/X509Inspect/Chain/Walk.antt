-- ===== src/X509Inspect/Chain/Walk.antt =====
-- The walk from the leaf to a root: it ends, repeats no certificate, and every step goes to a parent.
use mathlib.Core.List.{reverse-cons, reverse-reverse}
use spiffecli.Prelude.{
  ℕ, zero, suc, ◌≤◌, ◌<◌, ◌≡◌, ◌↔◌, refl, sym, ap, ◌∙◌, ◌⊎◌, inl, inr, true, false, some, List, [],
  ◌∷◌, ◌++◌, ok, err, arith, In, All, length, mem, Nodup, lookup, reverse, Bool-cases, Option-cases,
  if◌then◌else◌, subst, Result-cases,
}
use spiffecli.Cert.{Cert, X509Lib}
use spiffecli.X509Inspect.Links.{cert_fingerprint, is_parent, build_parent_map}
use spiffecli.X509Inspect.Links.Union.{fingerprints}
use spiffecli.X509Inspect.Links.Parents.{build_parent_map-listed}
use spiffecli.X509Inspect.Chain.{ChainError, identify_leaf, walk, build_chain}
use spiffecli.X509Inspect.Chain.Leaf.{IsLeaf, identify_leaf_sound}

module _ (lib : X509Lib) where
  -- The listed certificates that the walk has not met.
  abbrev pub unvisited : List ℕ → List Cert → ℕ
  unvisited visited [] = 0
  unvisited visited (c ∷ cs) =
      let rest = unvisited visited cs in
      if mem (cert_fingerprint lib c) visited then rest else suc rest

  pub unvisited-cons_le :
      (f : ℕ) (visited : List ℕ) (cs : List Cert)
      → unvisited (f ∷ visited) cs ≤ unvisited visited cs
  unvisited-cons_le f visited [] = omega arith
  unvisited-cons_le f visited (c ∷ cs) = ground (arith, unvisited-cons_le f visited cs)

  pub unvisited-cons :
      (c : Cert) (visited : List ℕ) (cs : List Cert)
      → In c cs
      → mem (cert_fingerprint lib c) visited ≡ false
      → unvisited (cert_fingerprint lib c ∷ visited) cs < unvisited visited cs
  unvisited-cons c visited [] h new = absurd h
  unvisited-cons c visited (d ∷ cs) (inl e) new =
      ground
        (arith, unvisited-cons_le (cert_fingerprint lib c) visited cs, ap (cert_fingerprint lib) e)
  unvisited-cons c visited (d ∷ cs) (inr h) new = ground (arith, unvisited-cons c visited cs h new)

  pub unvisited-nil : (cs : List Cert) → unvisited [] cs ≡ length cs
  unvisited-nil [] = refl
  unvisited-nil (c ∷ cs) = ap suc (unvisited-nil cs)

  -- Each certificate issued the next one.
  abbrev pub Descends : List Cert → Type 0
  Descends [] = Unit
  Descends (p ∷ []) = Unit
  Descends (p ∷ c ∷ cs) = (is_parent lib c p ≡ true) × Descends (c ∷ cs)

  -- `cur` is about to stand above the chain.
  abbrev Issues : Cert → List Cert → Type 0
  Issues cur [] = Unit
  Issues cur (c ∷ cs) = is_parent lib c cur ≡ true

  -- The last certificate of a chain that began with `leaf`; `cur` where nothing is appended yet.
  abbrev pub EndsAt : Cert → List Cert → Type 0
  EndsAt leaf [] = ⊥
  EndsAt leaf (c ∷ []) = c ≡ leaf
  EndsAt leaf (c ∷ d ∷ cs) = EndsAt leaf (d ∷ cs)

  -- Nothing listed issued the top of the chain, or the chain holds what did.
  abbrev pub IsTopped : List Cert → List Cert → Type 0
  IsTopped all [] = ⊥
  IsTopped all (top ∷ cs) =
      All (λ p. (p ≡ top) ⊎ (is_parent lib top p ≡ false)) all
      ⊎ ((p : Cert) × In p all
          × (is_parent lib top p ≡ true)
          × (mem (cert_fingerprint lib p) (fingerprints lib (top ∷ cs)) ≡ true))

  module _ (all : List Cert) (n : Nodup (fingerprints lib all)) (leaf : Cert) where
    -- The chain so far, root first, as the walk stands at `cur`.
    record Inv (visited : List ℕ) (chain : List Cert) (cur : Cert) : Type 0 where
      met : visited ≡ fingerprints lib chain
      once : Nodup (fingerprints lib chain)
      linked : Descends chain
      above : Issues cur chain
      members : All (λ c. In c all) chain
      here : In cur all
      bottom : EndsAt leaf (cur ∷ chain)

    -- What the walk delivers, root first.
    pub record IsChain (chain : List Cert) : Type 0 where
      pub once : Nodup (fingerprints lib chain)
      pub linked : Descends chain
      pub members : All (λ c. In c all) chain
      pub bottom : EndsAt leaf chain

    Inv-push :
        (visited : List ℕ) (chain : List Cert) (cur : Cert)
        → Inv visited chain cur
        → mem (cert_fingerprint lib cur) visited ≡ false
        → IsChain (cur ∷ chain)
    Inv-push visited chain cur h new = record {
      once = (subst (λ v. mem (cert_fingerprint lib cur) v ≡ false) h.met new, h.once);
      linked = linked chain h.linked h.above;
      members = (h.here, h.members);
      bottom = h.bottom;
    }
      where
        linked : (cs : List Cert) → Descends cs → Issues cur cs → Descends (cur ∷ cs)
        linked [] d i = tt
        linked (c ∷ cs) d i = (i, d)

    Inv-up :
        (visited : List ℕ) (chain : List Cert) (cur parent : Cert)
        → Inv visited chain cur
        → mem (cert_fingerprint lib cur) visited ≡ false
        → lookup (cert_fingerprint lib cur) (build_parent_map lib all) ≡ some parent
        → Inv (cert_fingerprint lib cur ∷ visited) (cur ∷ chain) parent
    Inv-up visited chain cur parent h new e =
        let (listed, issued, _) = (build_parent_map-listed lib all cur n h.here).0 parent e in
        let c = Inv-push visited chain cur h new in
        record {
          met = ap (λ v. cert_fingerprint lib cur ∷ v) h.met;
          once = c.once;
          linked = c.linked;
          above = issued;
          members = c.members;
          here = listed;
          bottom = h.bottom;
        }

    -- With enough fuel the walk returns.
    walk_returns :
        (fuel : ℕ) (visited : List ℕ) (chain : List Cert) (cur : Cert)
        → In cur all
        → unvisited visited all < fuel
        → (r : List Cert) × (walk lib fuel (build_parent_map lib all) visited chain cur ≡ ok r)
    unfolding walk
    walk_returns zero visited chain cur h lt = absurd (omega arith)
    walk_returns (suc fuel) visited chain cur h lt =
        elim (Bool-cases (mem (cert_fingerprint lib cur) visited)) [
          | inl old ↦ (chain, rw old)
          | inr new ↦
              elim (Option-cases (lookup (cert_fingerprint lib cur) (build_parent_map lib all))) [
                | inl top ↦ (chain ++ cur ∷ [], rw (new, top))
                | inr (parent, e) ↦
                    let (listed, _, _) = (build_parent_map-listed lib all cur n h).0 parent e in
                    rw (new, e)
                      (walk_returns fuel (cert_fingerprint lib cur ∷ visited) (chain ++ cur ∷ [])
                        parent listed (omega (arith, unvisited-cons cur visited all h new)))
              ]
        ]

    Inv-closed :
        (visited : List ℕ) (chain : List Cert) (cur : Cert)
        → Inv visited chain cur
        → mem (cert_fingerprint lib cur) visited ≡ true
        → IsChain chain × IsTopped all chain
    Inv-closed visited [] cur h old = cc (h.met, old)
    Inv-closed visited (top ∷ cs) cur h old = (
      record { once = h.once; linked = h.linked; members = h.members; bottom = h.bottom },
      inr (cur, h.here, h.above, subst (λ v. mem (cert_fingerprint lib cur) v ≡ true) h.met old),
    )

    walk_sound :
        (fuel : ℕ) (visited : List ℕ) (chain : List Cert) (cur : Cert) (r : List Cert)
        → Inv visited chain cur
        → walk lib fuel (build_parent_map lib all) visited (reverse chain) cur ≡ ok r
        → IsChain (reverse r) × IsTopped all (reverse r)
    unfolding walk
    walk_sound zero visited chain cur r h e = cc
    walk_sound (suc fuel) visited chain cur r h e =
        elim (Bool-cases (mem (cert_fingerprint lib cur) visited)) [
          | inl old ↦
              let stopped : reverse chain ≡ r = ground arith in
              let same : chain ≡ reverse r = sym (reverse-reverse chain) ∙ ap reverse stopped in
              subst (λ l. IsChain l × IsTopped all l) same (Inv-closed visited chain cur h old)
          | inr new ↦
              elim (Option-cases (lookup (cert_fingerprint lib cur) (build_parent_map lib all))) [
                | inl none_above ↦
                    let appended : reverse chain ++ cur ∷ [] ≡ r = ground arith in
                    let pushed : reverse (cur ∷ chain) ≡ r = reverse-cons cur chain ∙ appended in
                    let same : cur ∷ chain ≡ reverse r =
                      sym (reverse-reverse (cur ∷ chain)) ∙ ap reverse pushed in
                    subst (λ l. IsChain l × IsTopped all l) same
                      (
                        Inv-push visited chain cur h new,
                        inl ((build_parent_map-listed lib all cur n h.here).1 none_above),
                      )
                | inr (parent, found) ↦
                    walk_sound fuel (cert_fingerprint lib cur ∷ visited) (cur ∷ chain) parent r
                      (Inv-up visited chain cur parent h new found)
                      (rw (new, found, walk, ← reverse-cons) at e)
              ]
        ]

    abbrev start : In leaf all → Inv [] [] leaf
    start h = record {
      met = refl;
      once = tt;
      linked = tt;
      above = tt;
      members = tt;
      here = h;
      bottom = refl;
    }

  -- A chain from a listed leaf up to a root.
  pub record IsPathToRoot (all : List Cert) (leaf : Cert) (chain : List Cert) : Type 0 where
    pub chosen : IsLeaf lib all leaf
    pub once : Nodup (fingerprints lib chain)
    pub linked : Descends chain
    pub members : All (λ c. In c all) chain
    pub bottom : EndsAt leaf chain
    pub topped : IsTopped all chain

  -- `buildChain` on different certificates: it returns a chain whenever there is a leaf, so its
  -- loop ends; the chain begins at the root and ends at the leaf that `identifyLeaf` gives, repeats
  -- no certificate, holds listed certificates only, goes from issuer to issued, and stops only
  -- where the list holds no other issuer or an issuer that the chain already holds.
  pub build_chain_correct :
      (all : List Cert) (l : Cert)
      → Nodup (fingerprints lib all)
      → identify_leaf lib all ≡ ok l
      → (chain : List Cert) × (build_chain lib all ≡ ok chain) × IsPathToRoot all l chain
  unfolding build_chain
  build_chain_correct all l n found =
      let leaf = identify_leaf_sound lib all l found in
      let enough : unvisited [] all < suc (length all) = omega (arith, unvisited-nil all) in
      let (r, walked) = walk_returns all n l (suc (length all)) [] [] l leaf.listed enough in
      let (c, top) =
        walk_sound all n l (suc (length all)) [] [] l r (start all n l leaf.listed) walked in
      (
        reverse r,
        rw (found, walked),
        record {
          chosen = leaf;
          once = c.once;
          linked = c.linked;
          members = c.members;
          bottom = c.bottom;
          topped = top;
        },
      )

  build_chain_stops :
      (all : List Cert) (e : ChainError)
      → identify_leaf lib all ≡ err e
      → build_chain lib all ≡ err e
  unfolding build_chain
  build_chain_stops all e h = rw h

  -- `buildChain` fails exactly as `identifyLeaf` does: the walk adds no error.
  pub build_chain-err :
      (all : List Cert) (e : ChainError)
      → Nodup (fingerprints lib all)
      → (build_chain lib all ≡ err e) ↔ (identify_leaf lib all ≡ err e)
  build_chain-err all e n = elim (Result-cases (identify_leaf lib all)) [
    | inl (l, found) ↦
        let (chain, built, _) = build_chain_correct all l n found in (λ h. cc, λ h. cc)
    | inr (f, failed) ↦ let stops = build_chain_stops all f failed in (λ h. cc, λ h. cc)
  ]
