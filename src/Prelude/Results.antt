-- ===== src/Prelude/Results.antt =====
-- A value or an error, with the chain of fallible steps.
use mathlib.Core.Path.{◌≡◌, refl}
use mathlib.Core.Bool.{Bool, true, false}
use mathlib.Core.Logic.{◌⊎◌, inl, inr}
use mathlib.Core.List.{List, [], ◌∷◌}
use native.Mathlib.Omega.{arith}

pub data Result {ℓ κ} (E : Type ℓ) (V : Type κ) : Type (ℓ ⊔ κ) where
  ok : V → Result E V
  err : E → Result E V

-- An early return: the error, if the test fails.
abbrev pub guard {ℓ} : {E : Type ℓ} → Bool → E → Result E (Unit {0})
guard false failure = err failure
guard true failure = ok tt

infixl 5 ◌>>=◌ ◌>>◌
-- The next step takes the value; an error goes through.
abbrev pub ◌>>=◌ {ℓ κ μ} :
    {E : Type ℓ} {V : Type κ} {W : Type μ} → Result E V → (V → Result E W) → Result E W
err failure >>= next = err failure
ok v >>= next = next v

-- A step without a value.
abbrev pub ◌>>◌ {ℓ μ} : {E : Type ℓ} {W : Type μ} → Result E (Unit {0}) → Result E W → Result E W
step >> next = step >>= λ _. next

-- Wraps the error of a callee.
abbrev pub map_err {ℓ κ μ} :
    {E : Type ℓ} {F : Type κ} {A : Type μ} → (E → F) → Result E A → Result F A
map_err f (ok a) = ok a
map_err f (err e) = err (f e)

abbrev pub is_ok {ℓ κ} : {E : Type ℓ} {A : Type κ} → Result E A → Bool
is_ok (ok a) = true
is_ok (err e) = false

pub Result-cases {ℓ κ} :
    {E : Type ℓ} {A : Type κ} (r : Result E A) → ((a : A) × (r ≡ ok a)) ⊎ ((e : E) × (r ≡ err e))
Result-cases (ok a) = inl (a, refl)
Result-cases (err e) = inr (e, refl)

-- Inversion of a successful bind.
pub >>=-eq-ok {ℓ κ μ} :
    {E : Type ℓ} {V : Type κ} {W : Type μ} (step : Result E V) (next : V → Result E W) {w : W}
    → (step >>= next) ≡ ok w
    → (v : V) × (step ≡ ok v) × (next v ≡ ok w)
>>=-eq-ok (err failure) next done = cc
>>=-eq-ok (ok v) next done = (v, refl, done)

-- A loop that appends what each element gives, and stops at the first error.
abbrev pub traverse {ℓ κ μ} :
    {E : Type ℓ} {A : Type κ} {B : Type μ} → (A → Result E B) → List A → Result E (List B)
traverse f [] = ok []
traverse f (x ∷ xs) = do y ← f x; ys ← traverse f xs; ok (y ∷ ys)

-- Inversion of a wrapped call and of a guard.
pub map_err-eq-ok :
    {E F A : Type 0} (f : E → F) (r : Result E A) (a : A) → map_err f r ≡ ok a → r ≡ ok a
map_err-eq-ok f (ok b) a h = ground arith
map_err-eq-ok f (err e) a h = cc

pub guard-eq-ok : {E : Type 0} (b : Bool) (e : E) (u : Unit {0}) → guard b e ≡ ok u → b ≡ true
guard-eq-ok true e u h = refl
guard-eq-ok false e u h = cc

-- Inversion of a failed bind and of a failed call that was wrapped.
pub >>=-eq-err {ℓ κ μ} :
    {E : Type ℓ} {V : Type κ} {W : Type μ} (step : Result E V) (next : V → Result E W) (e : E)
    → (step >>= next) ≡ err e
    → (step ≡ err e) ⊎ ((v : V) × (step ≡ ok v) × (next v ≡ err e))
>>=-eq-err (err f) next e failed = inl cc
>>=-eq-err (ok v) next e failed = inr (v, refl, failed)

pub map_err-eq-err :
    {E F A : Type 0} (f : E → F) (r : Result E A) (e : F)
    → map_err f r ≡ err e
    → (d : E) × (r ≡ err d) × (f d ≡ e)
map_err-eq-err f (ok a) e h = cc
map_err-eq-err f (err d) e h = (d, refl, cc)
