-- ===== src/Filter/Parser/Cursor.antt =====
-- Reads of the tokens at a cursor that stands at one of them.
use tapgres.Prelude.{
  ℕ, zero, suc, ◌≤◌, ◌<◌, ◌≡◌, refl, Bool, true, false, some, List, arith, if◌then◌else◌, length,
  get_elem?,
}
use tapgres.Outcome.{
  value, Ensures, holds, failed, Ensures-index-bind, Ensures-if, get_elem?-some, index-in,
}
use tapgres.Event.{Text}
use tapgres.Filter.{Engine, TokenKind, Token, FilterParseError}
use tapgres.Filter.Lexer.Bounds.{IsTokens, last, more}
use tapgres.Filter.Values.{is_end}
use tapgres.Filter.Parser.{peek, error_here, take, take_if, expect}

not_last :
    {l : List Token} (c : ℕ) (t : Token)
    → IsTokens l
    → get_elem? l c ≡ some t
    → is_end t.kind ≡ false
    → suc c < length l
not_last zero t (last e) g n = ground arith
not_last (suc c) t (last e) g n = ground arith
not_last zero t (more e (last f)) g n = omega arith
not_last zero t (more e (more f h)) g n = omega arith
not_last (suc c) t (more e h) g n = omega (arith, not_last c t h g n)

-- A test that `End` does not pass.
abbrev pub Stops : (TokenKind → Bool) → Type 0
Stops test = (k : TokenKind) → test k ≡ true → is_end k ≡ false

-- A result, and a cursor further on but still at a token.
pub record Ahead {A : Type 0} (n : ℕ) (P : A → Type 0) (c : ℕ) (r : A × ℕ) : Type 0 where
  pub good : P r.0
  pub moved : c < r.1
  pub inside : r.1 < n

module _ (engine : Engine) (tokens : List Token) (h : IsTokens tokens) where
  abbrev n : ℕ
  n = length tokens

  pub error_here-Ensures :
      {A : Type 0} {P : A → Type 0} (message : Text) (c : ℕ)
      → c < n
      → Ensures P (error_here engine tokens message c)
  unfolding error_here
  error_here-Ensures message c i = Ensures-index-bind tokens c _ i λ t e. failed

  -- A read that carries a fact along.
  pub peek-Ensures : {P : Type 0} (c : ℕ) → c < n → P → Ensures (λ _. P) (peek engine tokens c)
  peek-Ensures c i p =
      let (t, e) = get_elem?-some tokens c i in
      rw (index-in {E = FilterParseError} tokens c t e) (holds p)

  pub take-Ensures :
      (c : ℕ)
      → c < n
      → Ensures
          (λ r. (r.1 < n) × (c ≤ r.1) × (is_end r.0.kind ≡ false → r.1 ≡ suc c))
          (take engine tokens c)
  unfolding take
  take-Ensures c i =
      Ensures-index-bind tokens c _ i
        λ t e. holds (ground (arith, not_last c t h e), ground arith, λ f. ground arith)

  pub take_if-Ensures :
      (test : TokenKind → Bool) (c : ℕ)
      → Stops test
      → c < n
      → Ensures (λ r. (r.1 < n) × (r.1 ≡ (if r.0 then suc c else c))) (take_if engine tokens test c)
  unfolding take_if
  take_if-Ensures test c stops i =
      Ensures-index-bind tokens c _ i λ t e. found t e (test t.kind) (stops t.kind)
    where
      found :
          (t : Token)
          → get_elem? tokens c ≡ some t
          → (b : Bool) → (b ≡ true → is_end t.kind ≡ false)
          → Ensures {E = FilterParseError} {A = Bool × ℕ}
              (λ r. (r.1 < n) × (r.1 ≡ (if r.0 then suc c else c)))
              (value (if b then (true, suc c) else (false, c)))
      found t e true s = holds (not_last c t h e (s refl), refl)
      found t e false s = holds (i, refl)

  pub expect-Ensures :
      (test : TokenKind → Bool) (message : Text) (c : ℕ)
      → Stops test
      → c < n
      → Ensures (λ r. (r < n) × (r ≡ suc c)) (expect engine tokens test message c)
  unfolding expect
  expect-Ensures test message c stops i = Ensures-index-bind tokens c _ i λ t e.
      Ensures-if (test t.kind) _ _ (λ b. holds (not_last c t h e (stops t.kind b), refl))
        λ _. error_here-Ensures message c i
