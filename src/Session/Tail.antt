-- ===== src/Session/Tail.antt =====
-- `read_tail` against `read_all`.
use tapgres.Prelude.{
  ℕ, zero, suc, ◌+◌, ◌-◌, ◌^◌, ◌≤◌, ◌≡◌, refl, sym, ap, ◌∙◌, min, Bool, true, false, List, [], ◌∷◌,
  ◌++◌, ◌⊎◌, inl, inr, arith, ◌==◌, length, drop, length-append, length-drop, drop_all, drop-drop,
  Bool-cases, leb,
}
use tapgres.Outcome.{Outcome, value, error, panic, out_of_fuel, ◌>>=◌}
use tapgres.Event.{Text, Output}
use tapgres.Session.{
  Formats, SessionError, read_with, read_line, read_all, read_tail, retain, push_back, is_blank,
}

-- The last `cap` outputs, and the number of the others, which stops at the largest `usize`.
abbrev pub newest : ℕ → List Output → List Output × ℕ
newest cap outputs = (drop (length outputs - cap) outputs, min (length outputs - cap) (2 ^ 64 - 1))

drop-snoc :
    (k : ℕ) (l : List Output) (o : Output)
    → k ≤ length l
    → drop k (l ++ o ∷ []) ≡ drop k l ++ o ∷ []
drop-snoc zero l o h = refl
drop-snoc (suc k) [] o h = absurd (omega arith)
drop-snoc (suc k) (x ∷ l) o h = drop-snoc k l o (omega arith)

pair_path : {A B : Type 0} {a c : A} {b d : B} → a ≡ c → b ≡ d → Path (A × B) (a, b) (c, d)
pair_path p q = rw (p, q) refl

bind-map :
    {A B C : Type 0} (r : Outcome SessionError A) (f : A → Outcome SessionError B)
    (g : A → Outcome SessionError C) (φ : B → C)
    → ((a : A) → g a ≡ (f a >>= λ b. value (φ b)))
    → (r >>= g) ≡ ((r >>= f) >>= λ b. value (φ b))
bind-map (value a) f g φ same = same a
bind-map (error e) f g φ same = refl
bind-map panic f g φ same = refl
bind-map out_of_fuel f g φ same = refl

elim-map :
    {B C : Type 0} (b : Bool) (x y : Outcome SessionError B) (u v : Outcome SessionError C)
    (φ : B → C)
    → u ≡ (x >>= λ r. value (φ r))
    → v ≡ (y >>= λ r. value (φ r))
    → elim b [ true ↦ u | false ↦ v ] ≡ (elim b [ true ↦ x | false ↦ y ] >>= λ r. value (φ r))
elim-map true x y u v φ p q = p
elim-map false x y u v φ p q = q

module _ (formats : Formats) where
  retain-newest :
      (cap : ℕ) (o : Output) (l : List Output)
      → retain formats cap o (newest cap l) ≡ newest cap (push_back formats o l)
  unfolding retain
  retain-newest zero o l =
      pair_path
        (drop_all (length l - 0) l (omega arith)
          ∙ sym (drop_all (length (l ++ o ∷ []) - 0) (l ++ o ∷ []) (omega arith)))
        (omega (arith, length-append l (o ∷ [])))
  retain-newest (suc cap) o l =
      let positive : (suc cap == 0) ≡ false = ground arith in
      elim (Bool-cases (leb (suc cap) (length l))) [
        | inl e ↦
            let one_more : length (l ++ o ∷ []) - suc cap ≡ suc (length l - suc cap) =
              ground (arith, length-append l (o ∷ [])) in
            let full : (length (drop (length l - suc cap) l) == suc cap) ≡ true =
              ground (arith, length-drop (length l - suc cap) l) in
            let step : suc (length l - suc cap) ≡ length l - suc cap + 1 = omega arith in
            let room : suc (length l - suc cap) ≤ length l = ground arith in
            rw positive (
              rw full (
                pair_path
                  (ap (λ d. d ++ o ∷ [])
                      (drop-drop 1 (length l - suc cap) l ∙ ap (λ k. drop k l) (sym step))
                    ∙ sym (drop-snoc (suc (length l - suc cap)) l o room)
                    ∙ ap (λ k. drop k (l ++ o ∷ [])) (sym one_more))
                  (omega (arith, one_more))))
        | inr e ↦
            let none_over : length l - suc cap ≡ 0 = ground arith in
            let still : length (l ++ o ∷ []) - suc cap ≡ 0 =
              ground (arith, length-append l (o ∷ [])) in
            let open_window : (length l == suc cap) ≡ false = ground arith in
            rw positive (rw (none_over, still) (rw open_window refl))
      ]

  -- Consumers that run in step read in step.
  read_with-map :
      {S T : Type 0} (φ : S → T) (f : Output → S → S) (g : Output → T → T)
      → ((o : Output) (s : S) → g o (φ s) ≡ φ (f o s))
      → (index : ℕ) (lines : List (Text ⊎ Text)) (s : S)
      → read_with formats g index lines (φ s)
        ≡ (read_with formats f index lines s >>= λ r. value (φ r))
  unfolding read_with
  read_with-map φ f g same index [] s = refl
  read_with-map φ f g same index (inr e ∷ lines) s = refl
  read_with-map φ f g same index (inl t ∷ lines) s =
      elim-map (is_blank formats t) _ _ _ _ φ (read_with-map φ f g same (suc index) lines s) (
        bind-map (read_line formats (suc index) t) _ _ φ
          λ o. rw (same o s) (read_with-map φ f g same (suc index) lines (f o s)))

  -- For every file and cap, `read_tail` fails as `read_all` fails, and otherwise returns the newest
  -- `cap` of the outputs that `read_all` returns, with the number of the others, which stops at the
  -- largest `usize`.
  pub read_tail-newest :
      (lines : List (Text ⊎ Text)) (cap : ℕ)
      → read_tail formats lines cap
        ≡ (read_all formats lines >>= λ outputs. value (newest cap outputs))
  unfolding read_tail read_all
  read_tail-newest lines cap =
      let start : newest cap [] ≡ ([], 0) =
        pair_path (drop_all (0 - cap) [] (omega arith)) (omega arith) in
      ap (λ s. read_with formats (retain formats cap) 0 lines s) (sym start)
      ∙ read_with-map (newest cap) (push_back formats) (retain formats cap) (retain-newest cap) 0
          lines []
