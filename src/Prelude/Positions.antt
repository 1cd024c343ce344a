-- ===== src/Prelude/Positions.antt =====
-- A property of every element but the one at a given position, as nested loops over one list with
-- a test `i == j` establish it.
use Prim.Native.Nat.{ℕ, suc, ◌+◌, ◌<◌}
use mathlib.Core.Path.{◌≡◌, refl}
use mathlib.Core.Logic.{◌⊎◌, inl, inr}
use mathlib.Core.List.{List, [], ◌∷◌, ◌++◌}
use native.Mathlib.Omega.{arith}
use spiffecli.Prelude.Lists.{length, In, All}

module _ {A : Type 0} where
  -- `P` of the elements of the list, whose positions count from `j`, but for position `i`.
  abbrev pub ButAt : (A → Type 0) → ℕ → ℕ → List A → Type 0
  ButAt P i j [] = Unit
  ButAt P i j (x ∷ xs) = ((i ≡ j) ⊎ P x) × ButAt P i (suc j) xs

  ButAt-after :
      (P : A → Type 0) (i : ℕ) (c : A) (j : ℕ) (xs : List A)
      → i < j
      → ButAt P i j xs
      → All (λ x. (x ≡ c) ⊎ P x) xs
  ButAt-after P i c j [] lt h = tt
  ButAt-after P i c j (x ∷ xs) lt (inl e, h) = absurd (omega arith)
  ButAt-after P i c j (x ∷ xs) lt (inr p, h) = (inr p, ButAt-after P i c (suc j) xs (omega arith) h)

  pub ButAt-split :
      (P : A → Type 0) (i : ℕ) (c : A) (j : ℕ) (pre post : List A)
      → j + length pre ≡ i
      → ButAt P i j (pre ++ c ∷ post)
      → All (λ x. (x ≡ c) ⊎ P x) (pre ++ c ∷ post)
  ButAt-split P i c j [] post e (_, h) = (inl refl, ButAt-after P i c (suc j) post (omega arith) h)
  ButAt-split P i c j (x ∷ pre) post e (inl same, h) = absurd (omega arith)
  ButAt-split P i c j (x ∷ pre) post e (inr p, h) =
      (inr p, ButAt-split P i c (suc j) pre post (omega arith) h)

  pub In-split :
      (c : A) (cs : List A) → In c cs → (pre : List A) × (post : List A) × (cs ≡ pre ++ c ∷ post)
  In-split c [] h = absurd h
  In-split c (d ∷ cs) (inl e) = ([], cs, cc)
  In-split c (d ∷ cs) (inr h) = let (pre, post, e) = In-split c cs h in (d ∷ pre, post, cc)
