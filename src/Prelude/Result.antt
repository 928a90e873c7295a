-- ===== src/Prelude/Result.antt =====
-- `Result` of the standard library, with its error type, and the `?` operator as a bind.
use mathlib.Core.Bool.{Bool, true, false}
use gitzero.Prelude.Tests.{if◌then◌else◌}
use mathlib.Core.Path.{◌≡◌, refl}
use mathlib.Core.Logic.{◌⊎◌, inl, inr}
use mathlib.Core.Option.{Option, none, some}

pub data Result {ℓ κ} (E : Type ℓ) (A : Type κ) : Type (ℓ ⊔ κ) where
  ok : A → Result E A
  err : E → Result E A

-- Option::ok_or
abbrev pub ok_or {ℓ κ} : {E : Type ℓ} {A : Type κ} → Option A → E → Result E A
ok_or none e = err e
ok_or (some a) e = ok a

-- The `?` operator: the rest of the function runs only on a value.
infixl 5 ◌>>=◌
abbrev pub ◌>>=◌ {ℓ κ ι} :
    {E : Type ℓ} {A : Type κ} {B : Type ι} → Result E A → (A → Result E B) → Result E B
err reason >>= rest = err reason
ok value >>= rest = rest value

module _ {ℓ κ ι} {E : Type ℓ} {A : Type κ} {B : Type ι} where
  -- What a chain that succeeded went through.
  pub >>=-eq-ok :
      (first : Result E A) (rest : A → Result E B) {result : B}
      → (first >>= rest) ≡ ok result
      → (value : A) × (first ≡ ok value) × (rest value ≡ ok result)
  >>=-eq-ok (err reason) rest h = cc
  >>=-eq-ok (ok value) rest h = (value, refl, h)

  pub >>=-eq-err :
      (m : Result E A) (f : A → Result E B) {e : E}
      → (m >>= f) ≡ err e
      → (m ≡ err e) ⊎ ((a : A) × (m ≡ ok a) × (f a ≡ err e))
  >>=-eq-err (ok a) f h = inr (a, refl, h)
  >>=-eq-err (err e) f h = inl cc

  pub >>=-cong :
      {m n : Result E A} {f g : A → Result E B}
      → m ≡ n
      → ((a : A) → f a ≡ g a)
      → (m >>= f) ≡ (n >>= g)
  >>=-cong p q = λ i. p i >>= λ a. q a i

module _ {ℓ κ} {E : Type ℓ} {A : Type κ} where
  pub ok-injective : {a b : A} → ◌≡◌ {A = Result E A} (ok a) (ok b) → a ≡ b
  ok-injective h = cc

  -- A guard that returns an error on a failed test.
  pub guard-eq-ok :
      (failed : Bool) (e : E) (r : Result E A) {a : A}
      → (if failed then err e else r) ≡ ok a
      → (failed ≡ false) × (r ≡ ok a)
  guard-eq-ok false e r h = (refl, h)
  guard-eq-ok true e r h = cc
