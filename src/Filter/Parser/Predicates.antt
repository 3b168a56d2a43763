-- ===== src/Filter/Parser/Predicates.antt =====
-- Values, sets, comparisons and predicates: what is parsed suits its field.
use tapgres.Prelude.{
  ℕ, zero, suc, ◌+◌, ◌≤◌, ◌<◌, ◌≡◌, refl, true, false, none, some, List, [], ◌∷◌, ◌++◌, arith, inl,
  inr, ◌⊎◌, length, All, length-append,
}
use tapgres.Outcome.{
  value, Ensures, holds, failed, Ensures-bind, Ensures-index-bind, Ensures-if, Ensures-weaken,
  Ensures-option,
}
use tapgres.Event.{Text}
use tapgres.Filter.{
  codes, Engine, Field, Value, Comparison, equal_to, not_equal_to, containing, matching, in_set,
  Predicate, is_text, TokenKind, word, string, equal, not_equal, contains, matches_op, in_op, Token,
  parse_field, FilterParseError,
}
use tapgres.Filter.Lexer.{fail}
use tapgres.Filter.Lexer.Bounds.{IsTokens}
use tapgres.Filter.Values.{is_left_brace, is_right_brace, is_comma, is_end}
use tapgres.Filter.Values.Fits.{Fits, value_of-Read}
use tapgres.Filter.Parser.{
  parse_value, string_of, parse_string, require_text_field, set_loop, parse_set, built,
  comparison_of, field_of, parse_predicate,
}
use tapgres.Filter.Parser.Cursor.{
  Ahead, error_here-Ensures, peek-Ensures, take-Ensures, take_if-Ensures, expect-Ensures,
}

-- A comparison suits its field: values are of the field's kind, sets are not empty, and `contains`
-- and `matches` stand behind text fields alone.
unfoldable pub Suits : {Regex : Type 0} → Field → Comparison Regex → Type 0
Suits f (equal_to v) = Fits f v
Suits f (not_equal_to v) = Fits f v
Suits f (containing t) = is_text f ≡ true
Suits f (matching r) = is_text f ≡ true
Suits f (in_set values) = (0 < length values) × All (Fits f) values

module _ (engine : Engine) (tokens : List Token) (h : IsTokens tokens) where
  abbrev n : ℕ
  n = length tokens

  parse_value-Ensures :
      (f : Field) (c : ℕ) → c < n → Ensures (Ahead n (Fits f) c) (parse_value engine tokens f c)
  unfolding parse_value
  parse_value-Ensures f c i = Ensures-bind _ _ (take-Ensures engine tokens h c i) λ (t, next) k.
      Ensures-weaken
        (λ r v. record {
          good = v.fits;
          moved = omega (arith, v.stays, k.2 v.not_end);
          inside = omega (arith, v.stays, k.0);
        })
        (value_of-Read engine.parse_ip_addr f t.kind t.position next)

  string_of-Ensures :
      (message : Text) (t : Token) (c : ℕ)
      → Ensures (λ r. (is_end t.kind ≡ false) × (r.1 ≡ c)) (string_of engine tokens message t c)
  string_of-Ensures message t c = go t.kind
    where
      go :
          (k : TokenKind)
          → Ensures {E = FilterParseError} {A = Text × ℕ}
              (λ r. (is_end k ≡ false) × (r.1 ≡ c))
              (elim k [ string letters ↦ value (letters, c) | _ ↦ fail t.position message ])
      go (string letters) = holds (refl, refl)
      go _ = failed

  parse_string-Ensures :
      (message : Text) (c : ℕ)
      → c < n
      → Ensures (Ahead n (λ _. Unit) c) (parse_string engine tokens message c)
  unfolding parse_string
  parse_string-Ensures message c i =
      Ensures-bind _ _ (take-Ensures engine tokens h c i) λ (t, next) k.
        Ensures-weaken
          (λ r v. record {
            good = tt;
            moved = omega (arith, v.1, k.2 v.0);
            inside = omega (arith, v.1, k.0);
          })
          (string_of-Ensures message t next)

  All-snoc : (P : Value → Type 0) (l : List Value) (v : Value) → All P l → P v → All P (l ++ v ∷ [])
  All-snoc P [] v a b = (b, tt)
  All-snoc P (x ∷ l) v a b = (a.0, All-snoc P l v a.1 b)

  abbrev IsValueSet : Field → List Value → Type 0
  IsValueSet f values = (0 < length values) × All (Fits f) values

  set_loop-Ensures :
      (fuel : ℕ) (f : Field) (values : List Value) (c : ℕ)
      → c < n
      → n ≤ c + fuel
      → All (Fits f) values
      → Ensures (Ahead n (IsValueSet f) c) (set_loop engine tokens fuel f values c)
  unfolding set_loop
  set_loop-Ensures zero f values c i fuel_c a = absurd (omega arith)
  set_loop-Ensures (suc fuel) f values c i fuel_c a =
      Ensures-bind _ _ (parse_value-Ensures f c i) λ (v, after_value) p.
        Ensures-bind _ _
          (take_if-Ensures engine tokens h is_comma after_value (λ k e. ground arith) p.inside)
          λ (comma, next) q.
            let grown : All (Fits f) (values ++ v ∷ []) = All-snoc (Fits f) values v a p.good in
            let size : 0 < length (values ++ v ∷ []) =
              omega (arith, length-append values (v ∷ [])) in
            Ensures-if comma _ _
              (λ b. Ensures-index-bind tokens next _ q.0 λ t e.
                Ensures-if (is_right_brace t.kind) _ _
                  (λ _. error_here-Ensures engine tokens h _ next q.0)
                  λ _.
                    Ensures-weaken
                      (λ r w. record {
                        good = w.good;
                        moved = ground (arith, w.moved, p.moved, q.1);
                        inside = w.inside;
                      })
                      (set_loop-Ensures fuel f (values ++ v ∷ []) next q.0
                        (ground (arith, p.moved, q.1)) grown))
              (λ b.
                Ensures-bind _ _
                  (expect-Ensures engine tokens h is_right_brace _ next (λ k e. ground arith) q.0)
                  λ behind w. holds (record {
                    good = (size, grown);
                    moved = ground (arith, w.1, p.moved, q.1);
                    inside = w.0;
                  }))

  parse_set-Ensures :
      (f : Field) (c : ℕ) → c < n → Ensures (Ahead n (IsValueSet f) c) (parse_set engine tokens f c)
  unfolding parse_set
  parse_set-Ensures f c i =
      Ensures-bind _ _ (expect-Ensures engine tokens h is_left_brace _ c (λ k e. ground arith) i)
        λ next p. Ensures-index-bind tokens next _ p.0 λ t e.
          Ensures-if (is_right_brace t.kind) _ _
            (λ _. error_here-Ensures engine tokens h _ next p.0)
            λ _.
              Ensures-weaken
                (λ r w. record {
                  good = w.good;
                  moved = omega (arith, w.moved, p.1);
                  inside = w.inside;
                })
                (set_loop-Ensures (length tokens) f [] next p.0 (omega arith) tt)

  built-Ensures :
      (f : Field) (position : ℕ) (r : engine.Regex ⊎ Text) (c : ℕ)
      → is_text f ≡ true
      → Ensures (λ r. (Suits f r.0) × (r.1 ≡ c)) (built engine tokens position r c)
  unfolding Suits
  built-Ensures f position (inl regex) c e = holds (e, refl)
  built-Ensures f position (inr message) c e = failed

  require_text_field-Ensures :
      (f : Field) (position : ℕ) (operator : Text)
      → Ensures (λ _. is_text f ≡ true) (require_text_field engine tokens f position operator)
  unfolding require_text_field
  require_text_field-Ensures f position operator =
      Ensures-if (is_text f) _ _ (λ e. holds e) (λ e. failed)

  comparison_of-Ensures :
      (f : Field) (k : TokenKind) (position c : ℕ)
      → c < n
      → Ensures (Ahead n (Suits f) c) (comparison_of engine tokens f k position c)
  unfolding comparison_of Suits
  comparison_of-Ensures f equal position c i =
      Ensures-bind _ _ (parse_value-Ensures f c i)
        λ r a. holds (record { good = a.good; moved = a.moved; inside = a.inside })
  comparison_of-Ensures f not_equal position c i =
      Ensures-bind _ _ (parse_value-Ensures f c i)
        λ r a. holds (record { good = a.good; moved = a.moved; inside = a.inside })
  comparison_of-Ensures f contains position c i =
      Ensures-bind _ _
        (Ensures-bind _ _ (require_text_field-Ensures f position (codes "contains")) λ _ e.
          Ensures-weaken {Q = λ r. (is_text f ≡ true) × Ahead n (λ _. Unit) c r} (λ r a. (e, a))
            (parse_string-Ensures _ c i))
        λ r a. holds (record { good = a.0; moved = a.1.moved; inside = a.1.inside })
  comparison_of-Ensures f matches_op position c i =
      Ensures-bind _ _
        (Ensures-bind {Q = λ _. is_text f ≡ true} _ _
          (require_text_field-Ensures f position (codes "matches"))
          λ _ e. peek-Ensures engine tokens h c i e)
        λ t e. Ensures-bind _ _ (parse_string-Ensures _ c i) λ r a.
          Ensures-weaken
            (λ b v. record {
              good = v.0;
              moved = omega (arith, v.1, a.moved);
              inside = omega (arith, v.1, a.inside);
            })
            (built-Ensures f _ (engine.build r.0) r.1 e)
  comparison_of-Ensures f in_op position c i =
      Ensures-bind _ _ (parse_set-Ensures f c i)
        λ r a. holds (record { good = a.good; moved = a.moved; inside = a.inside })
  comparison_of-Ensures f _ position c i = failed

  field_of-Ensures : (t : Token) → Ensures (λ _. is_end t.kind ≡ false) (field_of engine tokens t)
  field_of-Ensures t = go t.kind
    where
      go :
          (k : TokenKind)
          → Ensures {E = FilterParseError} {A = Field}
              (λ _. is_end k ≡ false)
              (elim k [
                | word letters ↦ elim (parse_field letters) [
                  | none ↦ fail t.position (codes "unknown filter field '" ++ letters ++ codes "'")
                  | some f ↦ value f
                ]
                | _ ↦ fail t.position (codes "expected a filter field")
              ])
      go (word letters) = Ensures-option (parse_field letters) _ _ (λ _. failed) (λ f _. holds refl)
      go _ = failed

  abbrev pub IsTypedPredicate : Predicate engine.Regex → Type 0
  IsTypedPredicate p = Suits p.field p.comparison

  pub parse_predicate-Ensures :
      (c : ℕ) → c < n → Ensures (Ahead n IsTypedPredicate c) (parse_predicate engine tokens c)
  unfolding parse_predicate
  parse_predicate-Ensures c i =
      Ensures-bind _ _ (take-Ensures engine tokens h c i) λ (t, at_operator) p.
        Ensures-bind _ _ (field_of-Ensures t) λ f not_end.
          Ensures-bind _ _ (take-Ensures engine tokens h at_operator p.0) λ (operator, next) q.
            Ensures-bind _ _ (comparison_of-Ensures f operator.kind operator.position next q.0)
              λ (r, behind) a. holds (record {
                good = a.good;
                moved = omega (arith, p.1, q.1, a.moved);
                inside = a.inside;
              })
