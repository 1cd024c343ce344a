-- ===== src/X509Verify/Leaf.antt =====
-- The leaf that is verified and the pool of intermediates.
use spiffecli.Prelude.{
  ◌≡◌, ◌∙◌, if◌then◌else◌, ◌⊎◌, inl, inr, refl, ap, Bool-cases, true, false, none, some, List, [],
  ◌∷◌, ◌++◌, ok, err, All,
}
use mathlib.Core.List.{append-nil, append_assoc}
use spiffecli.Cert.{Cert}
use spiffecli.X509Verify.{no_leaf, split_chain, extract_leaf_and_intermediates}

abbrev pub IsCa : Cert → Type 0
IsCa c = c.is_ca ≡ true

-- A chain taken apart at its first certificate that is not a CA's.
pub record IsSplit (leaf : Cert) (chain rest : List Cert) : Type 0 where
  pub before : List Cert
  pub after : List Cert
  pub whole : chain ≡ before ++ leaf ∷ after
  pub others : rest ≡ before ++ after
  pub first : All IsCa before
  pub not_ca : leaf.is_ca ≡ false

split_chain-some :
    (leaf : Cert) (pool cs : List Cert) → split_chain (some leaf) pool cs ≡ (some leaf, pool ++ cs)
unfolding split_chain
split_chain-some leaf pool [] = rw (append-nil pool) refl
split_chain-some leaf pool (c ∷ cs) =
    rw (split_chain-some leaf (pool ++ c ∷ []) cs, append_assoc pool (c ∷ []) cs) refl

skip_ca :
    (pool : List Cert) (c : Cert) (cs : List Cert)
    → c.is_ca ≡ true
    → split_chain none pool (c ∷ cs) ≡ split_chain none (pool ++ c ∷ []) cs
unfolding split_chain
skip_ca pool c cs ca =
    ap (λ b. if b then split_chain none (pool ++ c ∷ []) cs else split_chain (some c) pool cs) ca

split_chain-none :
    (pool cs : List Cert)
    → (All IsCa cs × (split_chain none pool cs ≡ (none, pool ++ cs)))
      ⊎ ((leaf : Cert) × (rest : List Cert) × IsSplit leaf cs rest
          × (split_chain none pool cs ≡ (some leaf, pool ++ rest)))
unfolding split_chain
split_chain-none pool [] = inl (tt, rw (append-nil pool) refl)
split_chain-none pool (c ∷ cs) = elim (Bool-cases c.is_ca) [
  | inr leaf ↦ inr (
    c,
    cs,
    record { before = []; after = cs; whole = refl; others = refl; first = tt; not_ca = leaf },
    ap (λ b. if b then split_chain none (pool ++ c ∷ []) cs else split_chain (some c) pool cs) leaf
        ∙ split_chain-some c pool cs,
  )
  | inl ca ↦ elim (split_chain-none (pool ++ c ∷ []) cs) [
    | inl (all_ca, e) ↦ inl (
      (ca, all_ca),
      skip_ca pool c cs ca ∙ e ∙ ap (λ p. (none, p)) (append_assoc pool (c ∷ []) cs),
    )
    | inr (leaf, rest, s, e) ↦ inr (
      leaf,
      c ∷ rest,
      record {
        before = c ∷ s.before;
        after = s.after;
        whole = ap (λ xs. c ∷ xs) s.whole;
        others = ap (λ xs. c ∷ xs) s.others;
        first = (ca, s.first);
        not_ca = s.not_ca;
      },
      skip_ca pool c cs ca ∙ e ∙ ap (λ p. (some leaf, p)) (append_assoc pool (c ∷ []) rest),
    )
  ]
]

-- Of a chain of two certificates or more, `ExtractLeafAndIntermediates` takes the first that is not
-- a CA certificate as the leaf, and all the others in order as intermediates; it fails exactly when
-- all of them are CA certificates.
pub extract_leaf_and_intermediates_correct :
    (c d : Cert) (cs : List Cert)
    → (All IsCa (c ∷ d ∷ cs) × (extract_leaf_and_intermediates (c ∷ d ∷ cs) ≡ err no_leaf))
      ⊎ ((leaf : Cert) × (rest : List Cert) × IsSplit leaf (c ∷ d ∷ cs) rest
          × (extract_leaf_and_intermediates (c ∷ d ∷ cs) ≡ ok (leaf, some rest)))
unfolding extract_leaf_and_intermediates
extract_leaf_and_intermediates_correct c d cs = elim (split_chain-none [] (c ∷ d ∷ cs)) [
  | inl (all_ca, e) ↦ inl (all_ca, rw e refl)
  | inr (leaf, rest, s, e) ↦ inr (leaf, rest, s, rw e refl)
]
