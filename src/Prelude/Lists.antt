-- ===== src/Prelude/Lists.antt =====
-- Lists measured and indexed by native numbers, under the library's names.
use Prim.Native.Nat.{ℕ, zero, suc, ◌+◌, ◌-◌, ◌≤◌, min}
use mathlib.Core.Path.{◌≡◌, refl, ap, sym, ◌∙◌, subst}
use mathlib.Core.List.{List, [], ◌∷◌, ◌++◌, append_assoc, append-nil}
use mathlib.Core.Option.{Option, none, some}
use native.Mathlib.Omega.{arith}

module _ {ℓ} {A : Type ℓ} where
  abbrev pub length : List A → ℕ
  length [] = 0
  length (x ∷ xs) = suc (length xs)

  abbrev pub get_elem? : List A → ℕ → Option A
  get_elem? [] i = none
  get_elem? (x ∷ xs) zero = some x
  get_elem? (x ∷ xs) (suc i) = get_elem? xs i

  abbrev pub take : ℕ → List A → List A
  take zero xs = []
  take (suc n) [] = []
  take (suc n) (x ∷ xs) = x ∷ take n xs

  abbrev pub drop : ℕ → List A → List A
  drop zero xs = xs
  drop (suc n) [] = []
  drop (suc n) (x ∷ xs) = drop n xs

  pub length-append : (xs ys : List A) → length (xs ++ ys) ≡ length xs + length ys
  length-append [] ys = omega arith
  length-append (x ∷ xs) ys = omega (arith, length-append xs ys)

  pub length-take : (n : ℕ) (xs : List A) → length (take n xs) ≡ min n (length xs)
  length-take zero xs = omega arith
  length-take (suc n) [] = omega arith
  length-take (suc n) (x ∷ xs) = omega (arith, length-take n xs)

  pub length-drop : (n : ℕ) (xs : List A) → length (drop n xs) ≡ length xs - n
  length-drop zero xs = omega arith
  length-drop (suc n) [] = omega arith
  length-drop (suc n) (x ∷ xs) = omega (arith, length-drop n xs)

  pub take-append-drop : (n : ℕ) (xs : List A) → take n xs ++ drop n xs ≡ xs
  take-append-drop zero xs = refl
  take-append-drop (suc n) [] = refl
  take-append-drop (suc n) (x ∷ xs) = rw (take-append-drop n xs)

  pub take_all : (n : ℕ) (xs : List A) → length xs ≤ n → take n xs ≡ xs
  take_all zero [] h = refl
  take_all zero (x ∷ xs) h = absurd (omega arith)
  take_all (suc n) [] h = refl
  take_all (suc n) (x ∷ xs) h = ap (λ l. x ∷ l) (take_all n xs (omega arith))

  pub drop_all : (n : ℕ) (xs : List A) → length xs ≤ n → drop n xs ≡ []
  drop_all zero [] h = refl
  drop_all zero (x ∷ xs) h = absurd (omega arith)
  drop_all (suc n) [] h = refl
  drop_all (suc n) (x ∷ xs) h = drop_all n xs (omega arith)

  -- The first part of an append is what `take` of its length gives, and the second what `drop` does.
  pub take-append_length : (xs ys : List A) (n : ℕ) → length xs ≡ n → take n (xs ++ ys) ≡ xs
  take-append_length [] ys zero e = refl
  take-append_length [] ys (suc n) e = absurd (omega arith)
  take-append_length (x ∷ xs) ys zero e = absurd (omega arith)
  take-append_length (x ∷ xs) ys (suc n) e =
      ap (λ l. x ∷ l) (take-append_length xs ys n (omega arith))

  pub drop-append_length : (xs ys : List A) (n : ℕ) → length xs ≡ n → drop n (xs ++ ys) ≡ ys
  drop-append_length [] ys zero e = refl
  drop-append_length [] ys (suc n) e = absurd (omega arith)
  drop-append_length (x ∷ xs) ys zero e = absurd (omega arith)
  drop-append_length (x ∷ xs) ys (suc n) e = drop-append_length xs ys n (omega arith)

-- `c` stands in `b` as one contiguous run.
pub record IsInfix {ℓ} {A : Type ℓ} (c b : List A) : Type ℓ where
  pub before : List A
  pub after : List A
  pub joined : b ≡ before ++ (c ++ after)

module _ {ℓ} {A : Type ℓ} where
  pub IsInfix-refl : (b : List A) → IsInfix b b
  IsInfix-refl b = record { before = []; after = []; joined = sym (append-nil b) }

  pub IsInfix-nil : (b : List A) → IsInfix [] b
  IsInfix-nil b = record { before = []; after = b; joined = refl }

  pub IsInfix-drop : (n : ℕ) (b : List A) → IsInfix (drop n b) b
  IsInfix-drop n b = record {
    before = take n b;
    after = [];
    joined = rw (append-nil, take-append-drop n b);
  }

  pub IsInfix-take : (n : ℕ) (b : List A) → IsInfix (take n b) b
  IsInfix-take n b = record { before = []; after = drop n b; joined = sym (take-append-drop n b) }

  pub IsInfix-trans : {d c b : List A} → IsInfix d c → IsInfix c b → IsInfix d b
  IsInfix-trans p q = record {
    before = q.before ++ p.before;
    after = p.after ++ q.after;
    joined = q.joined ∙ simp (p.joined, append_assoc);
  }

  pub length-IsInfix : {c b : List A} → IsInfix c b → length c ≤ length b
  length-IsInfix {c} {b} p =
      omega
        (arith, ap length p.joined, length-append p.before (c ++ p.after), length-append c p.after)

abbrev pub All {ℓ κ} : {A : Type ℓ} → (A → Type κ) → List A → Type κ
All P [] = Unit
All P (x ∷ xs) = P x × All P xs

module _ {ℓ} {A : Type ℓ} where
  -- The `m` items of `xs` from place `i` on.
  abbrev pub window : List A → ℕ → ℕ → List A
  window xs i m = take m (drop i xs)

  pub drop-drop : (j i : ℕ) (xs : List A) → drop j (drop i xs) ≡ drop (i + j) xs
  drop-drop j zero xs = let e : zero + j ≡ j = omega arith in rw e
  drop-drop zero (suc i) [] = let e : suc i + zero ≡ suc i = omega arith in rw e
  drop-drop (suc j) (suc i) [] = let e : suc i + suc j ≡ suc (i + suc j) = omega arith in rw e
  drop-drop j (suc i) (x ∷ xs) =
      let e : suc i + j ≡ suc (i + j) = omega arith in rw e (drop-drop j i xs)

  pub take-append-take : (m k : ℕ) (xs : List A) → take m xs ++ take k (drop m xs) ≡ take (m + k) xs
  take-append-take zero k xs = let e : zero + k ≡ k = omega arith in rw e
  take-append-take (suc m) zero [] = let e : suc m + zero ≡ suc m = omega arith in rw e
  take-append-take (suc m) (suc k) [] =
      let e : suc m + suc k ≡ suc (m + suc k) = omega arith in rw e
  take-append-take (suc m) k (x ∷ xs) =
      let e : suc m + k ≡ suc (m + k) = omega arith in
      rw e (ap (λ l. x ∷ l) (take-append-take m k xs))

  pub drop-take : (j m : ℕ) (xs : List A) → drop j (take m xs) ≡ take (m - j) (drop j xs)
  drop-take zero m xs = let e : m - zero ≡ m = omega arith in rw e
  drop-take (suc j) zero xs = let e : zero - suc j ≡ zero = omega arith in rw e
  drop-take (suc j) (suc m) [] = sym (take-nil (suc m - suc j))
    where
      take-nil : (n : ℕ) → take n (let nil : List A = [] in nil) ≡ []
      take-nil zero = refl
      take-nil (suc n) = refl
  drop-take (suc j) (suc m) (x ∷ xs) =
      let e : suc m - suc j ≡ m - j = omega arith in rw e (drop-take j m xs)

  pub window-append :
      (xs : List A) (i m k n : ℕ) → i + m ≡ n → window xs i m ++ window xs n k ≡ window xs i (m + k)
  window-append xs i m k n e =
      let d : drop n xs ≡ drop m (drop i xs) = rw (← e) (sym (drop-drop m i xs)) in
      rw d (take-append-take m k (drop i xs))

  pub drop-window :
      (xs : List A) (i m j n : ℕ) → i + j ≡ n → drop j (window xs i m) ≡ window xs n (m - j)
  drop-window xs i m j n e = drop-take j m (drop i xs) ∙ rw (drop-drop j i xs) (rw e)

  pub length-window : (xs : List A) (i m : ℕ) → i + m ≤ length xs → length (window xs i m) ≡ m
  length-window xs i m h = omega (arith, length-take m (drop i xs), length-drop i xs)

module _ {ℓ κ} {A : Type ℓ} (P : A → Type κ) where
  pub All-get : (l : List A) (i : ℕ) (x : A) → All P l → get_elem? l i ≡ some x → P x
  All-get [] i x h e = cc
  All-get (y ∷ l) zero x h e = let same : y ≡ x = cc in subst P same h.0
  All-get (y ∷ l) (suc i) x h e = All-get l i x h.1 e

  All-after : (l r : List A) → All P (l ++ r) → All P r
  All-after [] r h = h
  All-after (x ∷ l) r h = All-after l r h.1

  All-before : (l r : List A) → All P (l ++ r) → All P l
  All-before [] r h = tt
  All-before (x ∷ l) r h = (h.0, All-before l r h.1)

  pub All-IsInfix : {c b : List A} → IsInfix c b → All P b → All P c
  All-IsInfix {c} i h =
      All-before c i.after (All-after i.before (c ++ i.after) (subst (λ l. All P l) i.joined h))

pub get_elem?-length {ℓ} :
    {A : Type ℓ} (l r : List A) (x : A) → get_elem? (l ++ x ∷ r) (length l) ≡ some x
get_elem?-length [] r x = refl
get_elem?-length (y ∷ l) r x = get_elem?-length l r x
