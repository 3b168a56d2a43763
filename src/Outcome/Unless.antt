-- ===== src/Outcome/Unless.antt =====
-- Runs that may panic for one reason alone.
use tapgres.Prelude.{◌≡◌, refl, Bool, true, false, if◌then◌else◌}
use tapgres.Outcome.{Outcome, value, error, panic, out_of_fuel, ◌>>=◌, Ensures, holds, failed}

-- The run does as `Ensures P` says, or it panics and `B` holds.
pub data Unless {ℓ} {E A : Type ℓ} (B : Type ℓ) (P : A → Type ℓ) : Outcome E A → Type ℓ where
  sound : {r : Outcome E A} → Ensures P r → Unless B P r
  broken : B → Unless B P panic

module _ {ℓ} {E A : Type ℓ} {B : Type ℓ} {P : A → Type ℓ} where
  pub Unless-if :
      (b : Bool) (x y : Outcome E A)
      → (b ≡ true → Unless B P x)
      → (b ≡ false → Unless B P y)
      → Unless B P (if b then x else y)
  Unless-if true x y hx hy = hx refl
  Unless-if false x y hx hy = hy refl

  pub Unless-elim :
      (b : Bool) (x y : Outcome E A)
      → (b ≡ true → Unless B P x)
      → (b ≡ false → Unless B P y)
      → Unless B P (elim b [ true ↦ x | false ↦ y ])
  Unless-elim true x y hx hy = hx refl
  Unless-elim false x y hx hy = hy refl

module _ {ℓ} {E A C : Type ℓ} {B : Type ℓ} {P : A → Type ℓ} {Q : C → Type ℓ} where
  pub Unless-bind :
      (r : Outcome E A) (f : A → Outcome E C)
      → Unless B P r
      → ((a : A) → r ≡ value a → P a → Unless B Q (f a))
      → Unless B Q (r >>= f)
  Unless-bind (value a) f (sound (holds h)) k = k a refl h
  Unless-bind (error e) f (sound failed) k = sound failed
  Unless-bind panic f (broken b) k = broken b
  Unless-bind panic f (sound h) k = elim h [ ]
  Unless-bind out_of_fuel f (sound h) k = elim h [ ]

module _ {ℓ} {E A : Type ℓ} {B C : Type ℓ} {P Q : A → Type ℓ} where
  pub Unless-weaken :
      {r : Outcome E A} → (B → C) → ((a : A) → P a → Q a) → Unless B P r → Unless C Q r
  Unless-weaken g f (sound (holds {a} h)) = sound (holds (f a h))
  Unless-weaken g f (sound failed) = sound failed
  Unless-weaken g f (broken b) = broken (g b)
