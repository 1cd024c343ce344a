-- ===== src/Prelude/Split.antt =====
-- `strings.Split` at one byte.
use Prim.Native.Nat.{ℕ}
use mathlib.Core.Path.{◌≡◌, refl, ap}
use mathlib.Core.Logic.{inl, inr}
use mathlib.Core.List.{List, [], ◌∷◌, ◌++◌}
use spiffecli.Prelude.Tests.{◌==◌, ==_iff, if◌then◌else◌, Bool-cases}
use spiffecli.Prelude.Texts.{Bytes}

-- The part before the first separator, and the parts after it.
abbrev pub split_parts : ℕ → Bytes → Bytes × List Bytes
split_parts sep [] = ([], [])
split_parts sep (c ∷ cs) =
    let rest = split_parts sep cs in
    if c == sep then ([], rest.0 ∷ rest.1) else (c ∷ rest.0, rest.1)

abbrev pub split : ℕ → Bytes → List Bytes
split sep s = (split_parts sep s).0 ∷ (split_parts sep s).1

-- The parts with the separator between them.
abbrev pub join : ℕ → Bytes → List Bytes → Bytes
join sep p [] = p
join sep p (q ∷ qs) = p ++ sep ∷ join sep q qs

join-cons : (sep c : ℕ) (p : Bytes) (qs : List Bytes) → join sep (c ∷ p) qs ≡ c ∷ join sep p qs
join-cons sep c p [] = refl
join-cons sep c p (q ∷ qs) = refl

pub join-split : (sep : ℕ) (s : Bytes) → join sep (split_parts sep s).0 (split_parts sep s).1 ≡ s
join-split sep [] = refl
join-split sep (c ∷ cs) = elim (Bool-cases (c == sep)) [
  | inl e ↦
      let same : c ≡ sep = (==_iff c sep).0 e in
      rw (e, join-split sep cs) (ap (λ x. x ∷ cs) (sym_nat same))
  | inr e ↦
      rw (e, join-cons sep c (split_parts sep cs).0 (split_parts sep cs).1, join-split sep cs) refl
]
  where
    sym_nat : {a b : ℕ} → a ≡ b → b ≡ a
    sym_nat h = cc
