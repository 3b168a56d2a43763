-- ===== src/Outcome.antt =====
-- What a run of a Rust function comes to: a value, the `None` or `Err` that it returns, a panic, or
-- a loop whose fuel ran out. Indexing and slicing of a byte slice panic out of bounds, as in Rust.
pub mod Unless
use tapgres.Prelude.{
  ℕ, ◌-◌, ◌≤◌, ◌<◌, ◌≡◌, refl, ◌≢◌, Bool, true, false, ◌&&◌, Option, none, some, List, [], ◌∷◌,
  arith, leb, if◌then◌else◌, length, get_elem?, take, drop, length-take, length-drop, zero, suc,
  subst, IsInfix, IsInfix-take, IsInfix-drop, IsInfix-trans,
}

pub data Outcome {ℓ} (E A : Type ℓ) : Type ℓ where
  value : A → Outcome E A
  error : E → Outcome E A
  panic out_of_fuel : Outcome E A

infixl 5 ◌>>=◌ ◌>>◌
abbrev pub ◌>>=◌ {ℓ} : {E A B : Type ℓ} → Outcome E A → (A → Outcome E B) → Outcome E B
value a >>= f = f a
error e >>= f = error e
panic >>= f = panic
out_of_fuel >>= f = out_of_fuel

abbrev pub ◌>>◌ {ℓ} : {E A B : Type ℓ} → Outcome E A → Outcome E B → Outcome E B
m >> k = m >>= λ _. k

-- `b[i]`
unfoldable pub index {ℓ} : {E A : Type ℓ} → List A → ℕ → Outcome E A
index b i = elim (get_elem? b i) [ none ↦ panic | some x ↦ value x ]

-- `&b[i..j]`
unfoldable pub slice {ℓ} : {E A : Type ℓ} → List A → ℕ → ℕ → Outcome E (List A)
slice b i j = if leb i j && leb j (length b) then value (take (j - i) (drop i b)) else panic

-- The run neither panicked nor ran out of fuel, and `P` holds of its value if it returned one.
pub data Ensures {ℓ} {E A : Type ℓ} (P : A → Type ℓ) : Outcome E A → Type ℓ where
  holds : {a : A} → P a → Ensures P (value a)
  failed : {e : E} → Ensures P (error e)

pub get_elem?-some {ℓ} :
    {A : Type ℓ} (b : List A) (i : ℕ) → i < length b → (x : A) × (get_elem? b i ≡ some x)
get_elem?-some [] i h = elim h [ ]
get_elem?-some (x ∷ b) zero h = (x, refl)
get_elem?-some (x ∷ b) (suc i) h = get_elem?-some b i (omega arith)

module _ {ℓ} {E A : Type ℓ} {P : A → Type ℓ} where
  pub Ensures-value : {r : Outcome E A} {a : A} → Ensures P r → r ≡ value a → P a
  Ensures-value (holds {a} h) e = subst P (cc) h
  Ensures-value failed e = cc

  pub Ensures-ne-panic : {r : Outcome E A} → Ensures P r → r ≢ panic
  Ensures-ne-panic (holds h) = cc
  Ensures-ne-panic failed = cc

  pub Ensures-ne-out_of_fuel : {r : Outcome E A} → Ensures P r → r ≢ out_of_fuel
  Ensures-ne-out_of_fuel (holds h) = cc
  Ensures-ne-out_of_fuel failed = cc

  pub Ensures-if :
      (b : Bool) (x y : Outcome E A)
      → (b ≡ true → Ensures P x)
      → (b ≡ false → Ensures P y)
      → Ensures P (if b then x else y)
  Ensures-if true x y hx hy = hx refl
  Ensures-if false x y hx hy = hy refl

  pub Ensures-elim :
      (b : Bool) (x y : Outcome E A)
      → (b ≡ true → Ensures P x)
      → (b ≡ false → Ensures P y)
      → Ensures P (elim b [ true ↦ x | false ↦ y ])
  Ensures-elim true x y hx hy = hx refl
  Ensures-elim false x y hx hy = hy refl

  -- Where the test does not matter.
  pub Ensures-either :
      (b : Bool) (x y : Outcome E A) → Ensures P x → Ensures P y → Ensures P (if b then x else y)
  Ensures-either true x y hx hy = hx
  Ensures-either false x y hx hy = hy

module _ {ℓ} {E A B : Type ℓ} {P : A → Type ℓ} {Q : B → Type ℓ} where
  pub Ensures-bind :
      (r : Outcome E A) (f : A → Outcome E B)
      → Ensures P r
      → ((a : A) → P a → Ensures Q (f a))
      → Ensures Q (r >>= f)
  Ensures-bind (value a) f (holds h) k = k a h
  Ensures-bind (error e) f failed k = failed
  Ensures-bind panic f h k = elim h [ ]
  Ensures-bind out_of_fuel f h k = elim h [ ]

module _ {ℓ} {E A B : Type ℓ} {Q : B → Type ℓ} where
  -- An access in bounds goes on with the value that stands there.
  pub Ensures-index-bind :
      (b : List A) (i : ℕ) (f : A → Outcome E B)
      → i < length b
      → ((x : A) → get_elem? b i ≡ some x → Ensures Q (f x))
      → Ensures Q (index b i >>= f)
  unfolding index
  Ensures-index-bind b i f h k = let (x, e) = get_elem?-some b i h in rw (e, index, ◌>>=◌) (k x e)

  pub Ensures-slice-bind :
      (b : List A) (i j : ℕ) (f : List A → Outcome E B)
      → i ≤ j
      → j ≤ length b
      → ((c : List A) → IsInfix c b → length c ≡ j - i → Ensures Q (f c))
      → Ensures Q (slice b i j >>= f)
  unfolding slice
  Ensures-slice-bind b i j f p q k =
      let ok : (leb i j && leb j (length b)) ≡ true = ground arith in
      rw ok (
        k (take (j - i) (drop i b))
          (IsInfix-trans (IsInfix-take (j - i) (drop i b)) (IsInfix-drop i b))
          (omega (arith, length-take (j - i) (drop i b), length-drop i b)))

-- A read in bounds, by its value.
pub index-in {ℓ} :
    {E A : Type ℓ} (b : List A) (i : ℕ) (x : A)
    → get_elem? b i ≡ some x
    → index {E = E} b i ≡ value x
unfolding index
index-in b i x e = rw (e, index)

module _ {ℓ} {E A : Type ℓ} {P : List A → Type ℓ} where
  pub Ensures-slice :
      (b : List A) (i j : ℕ)
      → i ≤ j
      → j ≤ length b
      → ((c : List A) → IsInfix c b → length c ≡ j - i → P c)
      → Ensures {E = E} P (slice b i j)
  unfolding slice
  Ensures-slice b i j p q k =
      let ok : (leb i j && leb j (length b)) ≡ true = ground arith in
      rw ok (
        holds (
          k (take (j - i) (drop i b))
            (IsInfix-trans (IsInfix-take (j - i) (drop i b)) (IsInfix-drop i b))
            (omega (arith, length-take (j - i) (drop i b), length-drop i b))))

module _ {ℓ} {E A : Type ℓ} {P Q : A → Type ℓ} where
  pub Ensures-weaken : {r : Outcome E A} → ((a : A) → P a → Q a) → Ensures P r → Ensures Q r
  Ensures-weaken f (holds {a} h) = holds (f a h)
  Ensures-weaken f failed = failed

module _ {ℓ} {E A B : Type ℓ} {P : B → Type ℓ} where
  pub Ensures-option :
      (o : Option A) (x : Outcome E B) (f : A → Outcome E B)
      → (o ≡ none → Ensures P x)
      → ((a : A) → o ≡ some a → Ensures P (f a))
      → Ensures P (elim o [ none ↦ x | some a ↦ f a ])
  Ensures-option none x f hx hf = hx refl
  Ensures-option (some a) x f hx hf = hf a refl
