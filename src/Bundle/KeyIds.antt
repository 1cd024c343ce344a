-- ===== src/Bundle/KeyIds.antt =====
-- The list of key IDs, read back line by line.
use spiffecli.Prelude.{
  ℕ, ◌+◌, ◌==◌, ◌≡◌, ◌∙◌, ◌≢◌, refl, ap, inl, inr, false, Bool-cases, List, [], ◌∷◌, ◌++◌, map, ok,
  err, Bytes, is_empty, length, All, arith, split, split_parts, subst,
}
use spiffecli.Bundle.Output.{Jwk, key_id_missing, key_ids_from, convert_bundle_to_key_ids}

abbrev pub IsNamed : Jwk → Type 0
IsNamed k = k.key_id ≢ []

-- A text of one line.
abbrev pub IsLine : Bytes → Type 0
IsLine s = All (λ c. c ≢ 10) s

split_line : (s rest : Bytes) → IsLine s → split_parts 10 (s ++ 10 ∷ rest) ≡ (s, split 10 rest)
split_line [] rest h = refl
split_line (c ∷ s) rest (p, h) = elim (Bool-cases (c == 10)) [
  | inl e ↦ absurd (p (ground (arith, e)))
  | inr e ↦ rw (e, split_line s rest h) refl
]

empty_test : (s : Bytes) → s ≢ [] → is_empty s ≡ false
empty_test [] h = absurd (h refl)
empty_test (c ∷ s) h = refl

key_ids_from-named :
    (i : ℕ) (ks : List Jwk)
    → All IsNamed ks
    → (out : Bytes) × (key_ids_from i ks ≡ ok out)
      × (All (λ k. IsLine k.key_id) ks → split 10 out ≡ map (λ k. k.key_id) ks ++ [] ∷ [])
unfolding key_ids_from
key_ids_from-named i [] h = ([], refl, λ l. refl)
key_ids_from-named i (k ∷ ks) (p, h) =
    let (out, made, lines) = key_ids_from-named (i + 1) ks h in
    (
      k.key_id ++ 10 ∷ out,
      rw (empty_test k.key_id p, made, key_ids_from) refl,
      λ l. rw (split_line k.key_id out l.0) (ap (λ r. k.key_id ∷ r) (lines l.1)),
    )

-- The first key without an ID, with its index.
pub record IsFirstUnnamed (ks : List Jwk) (i : ℕ) : Type 0 where
  pub before : List Jwk
  pub key : Jwk
  pub after : List Jwk
  pub listed : ks ≡ before ++ key ∷ after
  pub first : All IsNamed before
  pub unnamed : key.key_id ≡ []
  pub index : i ≡ length before

key_ids_from-unnamed :
    (j : ℕ) (before : List Jwk) (key : Jwk) (after : List Jwk)
    → All IsNamed before
    → key.key_id ≡ []
    → key_ids_from j (before ++ key ∷ after) ≡ err (key_id_missing (j + length before))
unfolding key_ids_from
key_ids_from-unnamed j [] key after h e =
    rw (e, key_ids_from) (ap (λ n. err (key_id_missing n)) (omega arith))
key_ids_from-unnamed j (k ∷ before) key after (p, h) e =
    rw (empty_test k.key_id p, key_ids_from-unnamed (j + 1) before key after h e, key_ids_from)
      (ap (λ n. err (key_id_missing n)) (omega arith))

-- `ConvertBundleToKeyIDs` writes the IDs when every key has one, one in each line, so that splitting
-- the text at its line ends gives them back in order (for IDs without a line end); else it fails with
-- the index of the first key without an ID.
pub convert_bundle_to_key_ids_correct :
    (ks : List Jwk)
    → (All IsNamed ks
        → (out : Bytes) × (convert_bundle_to_key_ids ks ≡ ok out)
          × (All (λ k. IsLine k.key_id) ks → split 10 out ≡ map (λ k. k.key_id) ks ++ [] ∷ []))
      × ((i : ℕ) → IsFirstUnnamed ks i → convert_bundle_to_key_ids ks ≡ err (key_id_missing i))
convert_bundle_to_key_ids_correct ks = (
  key_ids_from-named 0 ks,
  λ i f.
      let failed = key_ids_from-unnamed 0 f.before f.key f.after f.first f.unnamed in
      subst (λ x. convert_bundle_to_key_ids x ≡ err (key_id_missing i)) (cc (f.listed))
        (failed ∙ ap (λ n. err (key_id_missing n)) (omega (arith, f.index))),
)
