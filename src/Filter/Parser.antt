-- ===== src/Filter/Parser.antt =====
-- src/filter.rs `Parser` and `DisplayFilter::parse`. The tokens do not change while they are parsed;
-- the cursor is passed on, and a read behind the tokens panics.
pub mod Cursor
pub mod Predicates
pub mod Typed
use tapgres.Prelude.{
  ℕ, zero, suc, ◌+◌, ◌*◌, ◌-◌, Bool, true, false, not, ◌&&◌, ◌||◌, Option, none, some, List, [],
  ◌∷◌, ◌++◌, inl, inr, ◌⊎◌, if◌then◌else◌, length,
}
use tapgres.Outcome.{Outcome, value, error, panic, out_of_fuel, ◌>>=◌, ◌>>◌, index}
use tapgres.Event.{Text}
use tapgres.Filter.{
  codes, Engine, Field, Value, Comparison, equal_to, not_equal_to, containing, matching, in_set,
  Predicate, Expr, predicate, and_expr, or_expr, not_expr, parse_field, field_name, is_text,
  FilterParseError, TokenKind, word, string, equal, not_equal, contains, matches_op, in_op, Token,
  DisplayFilter,
}
use tapgres.Filter.Lexer.{Lexed, fail, lex, is_whitespace}
use tapgres.Filter.Values.{
  is_or, is_and, is_not, is_left_paren, is_right_paren, is_left_brace, is_right_brace, is_comma,
  is_end, value_of,
}

module _ (engine : Engine) (tokens : List Token) where
  abbrev pub peek : ℕ → Lexed Token
  peek cursor = index tokens cursor

  pub error_here : {A : Type 0} → Text → ℕ → Lexed A
  error_here message cursor = peek cursor >>= λ t. fail t.position message

  pub take : ℕ → Lexed (Token × ℕ)
  take cursor = peek cursor >>= λ t. value (t, if is_end t.kind then cursor else suc cursor)

  pub take_if : (TokenKind → Bool) → ℕ → Lexed (Bool × ℕ)
  take_if test cursor =
      peek cursor >>= λ t. value (if test t.kind then (true, suc cursor) else (false, cursor))

  -- It returns the cursor behind the token.
  pub expect : (TokenKind → Bool) → Text → ℕ → Lexed ℕ
  expect test message cursor =
      peek cursor >>= λ t. (if test t.kind then value (suc cursor) else error_here message cursor)

  pub parse_value : Field → ℕ → Lexed (Value × ℕ)
  parse_value f cursor =
      take cursor >>= λ (t, next). value_of engine.parse_ip_addr f t.kind t.position next

  abbrev pub string_of : Text → Token → ℕ → Lexed (Text × ℕ)
  string_of message t cursor = elim t.kind [
    | string letters ↦ value (letters, cursor)
    | _ ↦ fail t.position message
  ]

  pub parse_string : Text → ℕ → Lexed (Text × ℕ)
  parse_string message cursor = take cursor >>= λ (t, next). string_of message t next

  pub require_text_field : Field → ℕ → Text → Lexed (Unit {0})
  require_text_field f position operator =
      if is_text f
      then value tt
      else fail position (
          codes "operator '"
          ++ operator
          ++ codes "' is not valid for '"
          ++ field_name f
          ++ codes "'")

  -- The loop of `parse_set`, with the values read so far.
  pub set_loop : ℕ → Field → List Value → ℕ → Lexed (List Value × ℕ)
  set_loop zero f values cursor = out_of_fuel
  set_loop (suc fuel) f values cursor = do
    (v, after_value) ← parse_value f cursor
    (comma, next) ← take_if is_comma after_value
    let more = set_loop fuel f (values ++ v ∷ []) next
    if comma
        then (peek next >>= λ t.
            (if is_right_brace t.kind
              then error_here (codes "expected a value after ','") next
              else more))
        else (expect is_right_brace (codes "expected ',' or '}' in set") next >>= λ behind.
            value (values ++ v ∷ [], behind))

  pub parse_set : Field → ℕ → Lexed (List Value × ℕ)
  parse_set f cursor = do
    next ← expect is_left_brace (codes "expected '{' after 'in'") cursor
    t ← peek next
    if is_right_brace t.kind
        then error_here (codes "set cannot be empty") next
        else set_loop (length tokens) f [] next

  abbrev pub built : ℕ → engine.Regex ⊎ Text → ℕ → Lexed (Comparison engine.Regex × ℕ)
  built position (inl regex) cursor = value (matching regex, cursor)
  built position (inr message) cursor = fail position (codes "invalid regex: " ++ message)

  pub comparison_of : Field → TokenKind → ℕ → ℕ → Lexed (Comparison engine.Regex × ℕ)
  comparison_of f equal position cursor =
      parse_value f cursor >>= λ (v, next). value (equal_to v, next)
  comparison_of f not_equal position cursor =
      parse_value f cursor >>= λ (v, next). value (not_equal_to v, next)
  comparison_of f contains position cursor =
      require_text_field f position (codes "contains")
      >> parse_string (codes "contains requires a quoted string") cursor
      >>= λ (needle, next). value (containing needle, next)
  comparison_of f matches_op position cursor =
      require_text_field f position (codes "matches") >> peek cursor >>= λ t.
      parse_string (codes "matches requires a quoted string") cursor >>= λ (pattern_text, next).
      built t.position (engine.build pattern_text) next
  comparison_of f in_op position cursor =
      parse_set f cursor >>= λ (values, next). value (in_set values, next)
  comparison_of f _ position cursor = fail position (
      codes "expected an operator after '"
      ++ field_name f
      ++ codes "' (==, !=, contains, matches, or in)")

  abbrev pub field_of : Token → Lexed Field
  field_of t = elim t.kind [
    | word letters ↦ elim (parse_field letters) [
      | none ↦ fail t.position (codes "unknown filter field '" ++ letters ++ codes "'")
      | some f ↦ value f
    ]
    | _ ↦ fail t.position (codes "expected a filter field")
  ]

  pub parse_predicate : ℕ → Lexed (Predicate engine.Regex × ℕ)
  parse_predicate cursor = do
    (field_token, at_operator) ← take cursor
    f ← field_of field_token
    (operator, next) ← take at_operator
    (c, behind) ← comparison_of f operator.kind operator.position next
    value (record { field = f; comparison = c }, behind)

  -- Recursive descent. A call at a cursor costs a unit of fuel.
  mutual
    pub parse_or : ℕ → ℕ → Lexed (Expr engine.Regex × ℕ)
    parse_or zero cursor = out_of_fuel
    parse_or (suc fuel) cursor = parse_and fuel cursor >>= λ (e, next). or_loop fuel e next

    pub or_loop : ℕ → Expr engine.Regex → ℕ → Lexed (Expr engine.Regex × ℕ)
    or_loop zero e cursor = out_of_fuel
    or_loop (suc fuel) e cursor = do
      (found, next) ← take_if is_or cursor
      let more = (parse_and fuel next >>= λ (right, behind). or_loop fuel (or_expr e right) behind)
      if found then more else value (e, next)

    pub parse_and : ℕ → ℕ → Lexed (Expr engine.Regex × ℕ)
    parse_and zero cursor = out_of_fuel
    parse_and (suc fuel) cursor = parse_not fuel cursor >>= λ (e, next). and_loop fuel e next

    pub and_loop : ℕ → Expr engine.Regex → ℕ → Lexed (Expr engine.Regex × ℕ)
    and_loop zero e cursor = out_of_fuel
    and_loop (suc fuel) e cursor = do
      (found, next) ← take_if is_and cursor
      let more =
          (parse_not fuel next >>= λ (right, behind). and_loop fuel (and_expr e right) behind)
      if found then more else value (e, next)

    pub parse_not : ℕ → ℕ → Lexed (Expr engine.Regex × ℕ)
    parse_not zero cursor = out_of_fuel
    parse_not (suc fuel) cursor = do
      (found, next) ← take_if is_not cursor
      let negated = (parse_not fuel next >>= λ (e, behind). value (not_expr e, behind))
      let plain = parse_primary fuel next
      if found then negated else plain

    pub parse_primary : ℕ → ℕ → Lexed (Expr engine.Regex × ℕ)
    parse_primary zero cursor = out_of_fuel
    parse_primary (suc fuel) cursor = do
      (found, next) ← take_if is_left_paren cursor
      let grouped = (do
        (e, at_paren) ← parse_or fuel next
        behind ← expect is_right_paren (codes "expected ')'") at_paren
        value (e, behind))
      if found
          then grouped
          else (parse_predicate next >>= λ (p, behind). value (predicate p, behind))

  -- `Parser::parse`; four calls at each cursor and one at the last are fuel enough.
  pub parse_tokens : Lexed (Expr engine.Regex)
  parse_tokens = do
    (e, cursor) ← parse_or (4 * length tokens + 4) 0
    t ← peek cursor
    if not (is_end t.kind)
        then error_here (codes "expected a boolean operator or end of expression") cursor
        else value e

-- `str::trim`
unfoldable pub trim_start : Text → Text
trim_start [] = []
trim_start (c ∷ t) = let rest = trim_start t in if is_whitespace c then rest else c ∷ t

unfoldable pub trim_end : Text → Text
trim_end [] = []
trim_end (c ∷ t) = elim (trim_end t) [
  | [] ↦ if is_whitespace c then [] else c ∷ []
  | d ∷ u ↦ c ∷ d ∷ u
]

-- `DisplayFilter::parse` behind its `trim`.
pub parse_trimmed : (engine : Engine) → Text → Lexed (DisplayFilter engine.Regex)
parse_trimmed engine [] = value (record { expression = []; root = none })
parse_trimmed engine (c ∷ t) = do
  tokens ← lex (c ∷ t)
  root ← parse_tokens engine tokens
  value (record { expression = c ∷ t; root = some root })

-- DisplayFilter::parse
pub parse_filter : (engine : Engine) → Text → Lexed (DisplayFilter engine.Regex)
parse_filter engine input = parse_trimmed engine (trim_end (trim_start input))
