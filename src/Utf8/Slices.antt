-- ===== src/Utf8/Slices.antt =====
-- Slices of a text at the ends of characters, and inside of one.
use tapgres.Prelude.{
  ℕ, suc, ◌+◌, ◌-◌, ◌≡◌, refl, ap, ◌∙◌, inl, inr, true, false, [], ◌∷◌, ◌++◌, append_assoc, arith,
  ltb, if◌then◌else◌, Bool-cases, ==_iff,
}
use tapgres.Outcome.{value, panic, ◌>>=◌}
use tapgres.Event.{Text}
use tapgres.Filter.{starts_with}
use tapgres.Utf8.{len_utf8, utf8_len, split_at, slice_from, slice}

pub len_utf8-suc : (c : ℕ) → (l : ℕ) × (len_utf8 c ≡ suc l)
unfolding len_utf8
len_utf8-suc c = elim (Bool-cases (ltb c 128)) [
  | inl e ↦ (0, rw e refl)
  | inr e ↦ rw e (elim (Bool-cases (ltb c 2048)) [
    | inl f ↦ (1, rw f refl)
    | inr f ↦
        rw f (elim (Bool-cases (ltb c 65536)) [ inl g ↦ (2, rw g refl) | inr g ↦ (3, rw g refl) ])
  ])
]

split_at-cons :
    {E : Type 0} (c n l : ℕ) (t : Text)
    → len_utf8 c ≡ suc l
    → split_at {E = E} (len_utf8 c + n) (c ∷ t)
      ≡ (split_at n t >>= λ (front, back). value (c ∷ front, back))
unfolding split_at
split_at-cons c n l t e =
    let k : len_utf8 c + n ≡ suc (l + n) = omega arith in
    let le : ltb (suc (l + n)) (suc l) ≡ false = ground (arith) in
    let d : suc (l + n) - suc l ≡ n = omega arith in rw k (rw e (rw le (rw d refl)))

split_at-++ : {E : Type 0} (x y : Text) → split_at {E = E} (utf8_len x) (x ++ y) ≡ value (x, y)
unfolding utf8_len split_at
split_at-++ [] y = refl
split_at-++ {E = E} (c ∷ x) y =
    let (l, e) = len_utf8-suc c in
    rw (split_at-cons c (utf8_len x) l (x ++ y) e) (rw (split_at-++ {E = E} x y) refl)

pub starts_with-At :
    (needle hay : Text) → starts_with needle hay ≡ true → (rest : Text) × (hay ≡ needle ++ rest)
unfolding starts_with
starts_with-At [] hay e = (hay, refl)
starts_with-At (c ∷ needle) [] e = ground (arith)
starts_with-At (c ∷ needle) (d ∷ hay) e =
    let (rest, f) = starts_with-At needle hay (ground (arith, e)) in
    let same : c ≡ d = (==_iff c d).0 (ground (arith, e)) in (rest, cc)

-- A character of several bytes cannot be cut behind its first.
pub split_at-inside :
    {E : Type 0} (x : Text) (c : ℕ) (y : Text) (l : ℕ)
    → len_utf8 c ≡ suc (suc l)
    → split_at {E = E} (utf8_len x + 1) (x ++ (c ∷ y)) ≡ panic
unfolding utf8_len split_at
split_at-inside [] c y l e =
    let le : ltb 1 (suc (suc l)) ≡ true = ground (arith) in rw e (rw le refl)
split_at-inside {E = E} (d ∷ x) c y l e =
    let (m, f) = len_utf8-suc d in
    let n : utf8_len (d ∷ x) + 1 ≡ len_utf8 d + (utf8_len x + 1) = omega arith in
    rw n (
      rw (split_at-cons d (utf8_len x + 1) m (x ++ (c ∷ y)) f)
        (rw (split_at-inside {E = E} x c y l e) refl))

pub utf8_len-++ : (x y : Text) → utf8_len (x ++ y) ≡ utf8_len x + utf8_len y
unfolding utf8_len
utf8_len-++ [] y = omega arith
utf8_len-++ (c ∷ x) y = ground (arith, utf8_len-++ x y)

pub slice_from_at :
    {E : Type 0} (x y line : Text) (i : ℕ)
    → line ≡ x ++ y
    → i ≡ utf8_len x
    → slice_from {E = E} i line ≡ value y
unfolding slice_from
slice_from_at x y line i f e =
    ap (λ r. r >>= λ (front, back). value back)
      (ap (λ n. split_at n line) e ∙ ap (split_at (utf8_len x)) f ∙ split_at-++ x y)

pub slice_at :
    {E : Type 0} (x y z line : Text) (i j : ℕ)
    → line ≡ x ++ y ++ z
    → i ≡ utf8_len x
    → j ≡ utf8_len x + utf8_len y
    → slice {E = E} i j line ≡ value y
unfolding slice
slice_at x y z line i j f ei ej =
    let d : j - i ≡ utf8_len y = omega arith in
    let le : ltb j i ≡ false = ground (arith, ei, ej) in
    ap
      (λ r.
        r >>= λ t. if ltb j i then panic else split_at (j - i) t >>= λ (front, back). value front)
      (slice_from_at x (y ++ z) line i (f ∙ append_assoc x y z) ei)
    ∙ rw le (
        ap (λ r. r >>= λ (front, back). value front)
          (ap (λ n. split_at n (y ++ z)) d ∙ split_at-++ y z))
