-- ===== src/Prelude/Texts.antt =====
-- Texts that are only compared are native strings; bytes that are walked are lists of numbers.
use Prim.Native.Nat.{ℕ}
use Prim.Native.Char.{code}
use Prim.Native.String.{String}
use Prim.Native.String
use mathlib.Core.Path.{◌≡◌, refl}
use mathlib.Core.Logic.{◌↔◌}
use mathlib.Core.Bool.{Bool, true, false, ◌&&◌, ◌||◌}
use mathlib.Core.List.{List, [], ◌∷◌, ◌++◌}
use native.Mathlib.Omega.{arith}
use text.Mathlib.Text.{◌==◌ as str_eq}
use text.Mathlib.TextEquality.{eq_iff}
use mathlib.Core.Option.{Option, none, some}
use spiffecli.Prelude.Tests.{◌==◌, if◌then◌else◌}
use spiffecli.Prelude.Lists.{In}

abbrev pub Bytes : Type 0
Bytes = List ℕ

-- `bytes.Equal`
abbrev pub bytes_equal : Bytes → Bytes → Bool
bytes_equal [] [] = true
bytes_equal (x ∷ xs) (y ∷ ys) = x == y && bytes_equal xs ys
bytes_equal _ _ = false

pub bytes_equal_iff : (a b : Bytes) → (bytes_equal a b ≡ true) ↔ (a ≡ b)
bytes_equal_iff [] [] = (λ _. refl, λ _. refl)
bytes_equal_iff [] (y ∷ ys) = (λ h. cc, λ h. cc)
bytes_equal_iff (x ∷ xs) [] = (λ h. cc, λ h. cc)
bytes_equal_iff (x ∷ xs) (y ∷ ys) = ground (arith, bytes_equal_iff xs ys)

-- `strings.HasPrefix` on bytes
abbrev pub has_prefix : Bytes → Bytes → Bool
has_prefix s [] = true
has_prefix [] (p ∷ ps) = false
has_prefix (c ∷ s) (p ∷ ps) = c == p && has_prefix s ps

pub has_prefix-append : (p s : Bytes) → has_prefix (p ++ s) p ≡ true
has_prefix-append [] s = refl
has_prefix-append (c ∷ p) s = ground (arith, has_prefix-append p s)

infix 50 ◌=ₛ◌
-- Equality of texts; `=ₛ_iff` below reads it.
abbrev pub ◌=ₛ◌ : String → String → Bool
s =ₛ t = str_eq s t

pub =ₛ_iff : (s t : String) → ((s =ₛ t) ≡ true) ↔ (s ≡ t)
=ₛ_iff s t = eq_iff s t

-- `slices.Contains` at texts, and a Go `switch` with several texts on one case.
abbrev pub one_of : String → List String → Bool
one_of s [] = false
one_of s (t ∷ ts) = s =ₛ t || one_of s ts

abbrev pub codes : String → List ℕ
codes String.[] = []
codes (String.◌∷◌ c s) = code c ∷ codes s

infixr 66 ◌++ₛ◌
-- Concatenation of texts.
abbrev pub ◌++ₛ◌ : String → String → String
s ++ₛ t = String.◌++◌ s t

-- Go's `map[string]V`, the newest assignment in front.
module _ {ℓ} {V : Type ℓ} where
  abbrev pub lookup_text : String → List (String × V) → Option V
  lookup_text k [] = none
  lookup_text k ((j, v) ∷ m) = if k =ₛ j then some v else lookup_text k m

pub =ₛ_refl : (s : String) → (s =ₛ s) ≡ true
=ₛ_refl s = (=ₛ_iff s s).1 refl

pub one_of_iff : (s : String) (ts : List String) → (one_of s ts ≡ true) ↔ In s ts
one_of_iff s [] = (λ h. cc, λ h. absurd h)
one_of_iff s (t ∷ ts) = ground (arith, one_of_iff s ts, eq_iff s t)
