-- ===== src/Filter/Parser/Typed.antt =====
-- Parsing a filter stops without a panic, and what it returns is well typed.
use tapgres.Prelude.{
  ℕ, zero, suc, ◌+◌, ◌*◌, ◌≤◌, ◌<◌, ◌≡◌, refl, not, none, some, List, [], ◌∷◌, arith, length,
}
use tapgres.Outcome.{
  value, Ensures, holds, Ensures-bind, Ensures-index-bind, Ensures-if, Ensures-weaken,
}
use tapgres.Event.{Text}
use tapgres.Filter.{Engine, Expr, predicate, and_expr, or_expr, not_expr, Token, DisplayFilter}
use tapgres.Filter.Lexer.Bounds.{IsTokens, last, more, lex-IsTokens}
use tapgres.Filter.Values.{is_or, is_and, is_not, is_left_paren, is_right_paren, is_end}
use tapgres.Filter.Parser.{
  parse_or, or_loop, parse_and, and_loop, parse_not, parse_primary, parse_tokens, parse_trimmed,
  parse_filter, trim_start, trim_end,
}
use tapgres.Filter.Parser.Cursor.{Ahead, error_here-Ensures, take_if-Ensures, expect-Ensures}
use tapgres.Filter.Parser.Predicates.{Suits, parse_predicate-Ensures}

unfoldable pub IsTyped : {Regex : Type 0} → Expr Regex → Type 0
IsTyped (predicate p) = Suits p.field p.comparison
IsTyped (and_expr l r) = IsTyped l × IsTyped r
IsTyped (or_expr l r) = IsTyped l × IsTyped r
IsTyped (not_expr e) = IsTyped e

module _ (engine : Engine) (tokens : List Token) (h : IsTokens tokens) where
  abbrev n : ℕ
  n = length tokens

  -- The same, where the cursor may have stayed.
  record Reached (c : ℕ) (r : Expr engine.Regex × ℕ) : Type 0 where
    good : IsTyped r.0
    moved : c ≤ r.1
    inside : r.1 < n

  -- Four calls at each cursor.
  mutual
    unfolding parse_or or_loop parse_and and_loop parse_not parse_primary IsTyped

    parse_or-Ensures :
        (fuel c : ℕ)
        → c < n
        → 4 * n + 3 < fuel + 4 * c
        → Ensures (Ahead n IsTyped c) (parse_or engine tokens fuel c)
    parse_or-Ensures zero c i enough = absurd (omega arith)
    parse_or-Ensures (suc fuel) c i enough =
        Ensures-bind _ _ (parse_and-Ensures fuel c i (omega arith)) λ (e, next) a.
          Ensures-weaken
            (λ r w. record {
              good = w.good;
              moved = omega (arith, w.moved, a.moved);
              inside = w.inside;
            })
            (or_loop-Ensures fuel e next a.inside (omega (arith, a.moved)) a.good)

    or_loop-Ensures :
        (fuel : ℕ) (e : Expr engine.Regex) (c : ℕ)
        → c < n
        → 4 * n < fuel + 4 * c
        → IsTyped e
        → Ensures (Reached c) (or_loop engine tokens fuel e c)
    or_loop-Ensures zero e c i enough typed = absurd (omega arith)
    or_loop-Ensures (suc fuel) e c i enough typed =
        Ensures-bind _ _ (take_if-Ensures engine tokens h is_or c (λ k b. ground arith) i)
          λ (found, next) p.
            Ensures-if found _ _
              (λ b.
                let step : next ≡ suc c = ground (arith, p.1) in
                Ensures-bind _ _ (parse_and-Ensures fuel next p.0 (omega (arith, step)))
                  λ (right, behind) a.
                    Ensures-weaken
                      (λ r w. record {
                        good = w.good;
                        moved = omega (arith, w.moved, a.moved, step);
                        inside = w.inside;
                      })
                      (or_loop-Ensures fuel (or_expr e right) behind a.inside
                        (omega (arith, a.moved, step)) (typed, a.good)))
              (λ b. holds (record { good = typed; moved = ground (arith, p.1); inside = p.0 }))

    parse_and-Ensures :
        (fuel c : ℕ)
        → c < n
        → 4 * n + 2 < fuel + 4 * c
        → Ensures (Ahead n IsTyped c) (parse_and engine tokens fuel c)
    parse_and-Ensures zero c i enough = absurd (omega arith)
    parse_and-Ensures (suc fuel) c i enough =
        Ensures-bind _ _ (parse_not-Ensures fuel c i (omega arith)) λ (e, next) a.
          Ensures-weaken
            (λ r w. record {
              good = w.good;
              moved = omega (arith, w.moved, a.moved);
              inside = w.inside;
            })
            (and_loop-Ensures fuel e next a.inside (omega (arith, a.moved)) a.good)

    and_loop-Ensures :
        (fuel : ℕ) (e : Expr engine.Regex) (c : ℕ)
        → c < n
        → 4 * n < fuel + 4 * c
        → IsTyped e
        → Ensures (Reached c) (and_loop engine tokens fuel e c)
    and_loop-Ensures zero e c i enough typed = absurd (omega arith)
    and_loop-Ensures (suc fuel) e c i enough typed =
        Ensures-bind _ _ (take_if-Ensures engine tokens h is_and c (λ k b. ground arith) i)
          λ (found, next) p.
            Ensures-if found _ _
              (λ b.
                let step : next ≡ suc c = ground (arith, p.1) in
                Ensures-bind _ _ (parse_not-Ensures fuel next p.0 (omega (arith, step)))
                  λ (right, behind) a.
                    Ensures-weaken
                      (λ r w. record {
                        good = w.good;
                        moved = omega (arith, w.moved, a.moved, step);
                        inside = w.inside;
                      })
                      (and_loop-Ensures fuel (and_expr e right) behind a.inside
                        (omega (arith, a.moved, step)) (typed, a.good)))
              (λ b. holds (record { good = typed; moved = ground (arith, p.1); inside = p.0 }))

    parse_not-Ensures :
        (fuel c : ℕ)
        → c < n
        → 4 * n + 1 < fuel + 4 * c
        → Ensures (Ahead n IsTyped c) (parse_not engine tokens fuel c)
    parse_not-Ensures zero c i enough = absurd (omega arith)
    parse_not-Ensures (suc fuel) c i enough =
        Ensures-bind _ _ (take_if-Ensures engine tokens h is_not c (λ k b. ground arith) i)
          λ (found, next) p.
            Ensures-if found _ _
              (λ b.
                let step : next ≡ suc c = ground (arith, p.1) in
                Ensures-bind _ _ (parse_not-Ensures fuel next p.0 (omega (arith, step)))
                  λ (e, behind) a. holds (record {
                    good = a.good;
                    moved = omega (arith, a.moved, step);
                    inside = a.inside;
                  }))
              (λ b.
                let stay : next ≡ c = ground (arith, p.1) in
                Ensures-weaken
                  (λ r w. record {
                    good = w.good;
                    moved = omega (arith, w.moved, stay);
                    inside = w.inside;
                  })
                  (parse_primary-Ensures fuel next p.0 (omega (arith, stay))))

    parse_primary-Ensures :
        (fuel c : ℕ)
        → c < n
        → 4 * n < fuel + 4 * c
        → Ensures (Ahead n IsTyped c) (parse_primary engine tokens fuel c)
    parse_primary-Ensures zero c i enough = absurd (omega arith)
    parse_primary-Ensures (suc fuel) c i enough =
        Ensures-bind _ _ (take_if-Ensures engine tokens h is_left_paren c (λ k b. ground arith) i)
          λ (found, next) p.
            Ensures-if found _ _
              (λ b.
                let step : next ≡ suc c = ground (arith, p.1) in
                Ensures-bind _ _ (parse_or-Ensures fuel next p.0 (omega (arith, step)))
                  λ (e, at_paren) a.
                    Ensures-bind _ _
                      (expect-Ensures engine tokens h is_right_paren _ at_paren
                        (λ k b. ground arith) a.inside)
                      λ behind q. holds (record {
                        good = a.good;
                        moved = omega (arith, a.moved, step, q.1);
                        inside = q.0;
                      }))
              (λ b.
                let stay : next ≡ c = ground (arith, p.1) in
                Ensures-bind _ _ (parse_predicate-Ensures engine tokens h next p.0) λ (r, behind) a.
                  holds (record {
                    good = a.good;
                    moved = omega (arith, a.moved, stay);
                    inside = a.inside;
                  }))

  parse_tokens-Ensures : 0 < n → Ensures IsTyped (parse_tokens engine tokens)
  unfolding parse_tokens
  parse_tokens-Ensures i =
      Ensures-bind _ _ (parse_or-Ensures (4 * n + 4) 0 i (omega arith)) λ (e, cursor) a.
        Ensures-index-bind tokens cursor _ a.inside λ t _.
          Ensures-if (not (is_end t.kind)) _ _
            (λ _. error_here-Ensures engine tokens h _ cursor a.inside) (λ _. holds a.good)

some_token : {l : List Token} → IsTokens l → 0 < length l
some_token (last e) = omega arith
some_token (more e h) = omega arith

-- A filter that matches everything, or a well-typed expression.
abbrev pub IsTypedFilter : {Regex : Type 0} → DisplayFilter Regex → Type 0
IsTypedFilter f = elim f.root [ none ↦ Unit | some e ↦ IsTyped e ]

parse_trimmed-IsTyped :
    (engine : Engine) (t : Text) → Ensures IsTypedFilter (parse_trimmed engine t)
unfolding parse_trimmed
parse_trimmed-IsTyped engine [] = holds tt
parse_trimmed-IsTyped engine (c ∷ t) = Ensures-bind _ _ (lex-IsTokens (c ∷ t)) λ tokens h.
    Ensures-bind _ _ (parse_tokens-Ensures engine tokens h (some_token h)) λ root typed. holds typed

-- For every text, whatever the engine does, parsing a filter stops without a panic, and a filter that
-- it returns is well typed: each field is compared with values of its kind, ports are below 2^16,
-- sets are not empty, and `contains` and `matches` stand behind text fields alone.
pub parse_filter-IsTyped :
    (engine : Engine) (input : Text) → Ensures IsTypedFilter (parse_filter engine input)
unfolding parse_filter
parse_filter-IsTyped engine input = parse_trimmed-IsTyped engine (trim_end (trim_start input))

-- A blank text is the filter that matches everything.
pub parse_filter-blank :
    (engine : Engine) (input : Text)
    → trim_end (trim_start input) ≡ []
    → parse_filter engine input ≡ value (record { expression = []; root = none })
unfolding parse_filter parse_trimmed
parse_filter-blank engine input e = rw e refl
