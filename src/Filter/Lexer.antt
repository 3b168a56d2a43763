-- ===== src/Filter/Lexer.antt =====
-- src/filter.rs `lex` and `lex_string`. Positions count bytes of UTF-8, and each round slices the input at its
-- position. Inside a round, a place is a position and the characters behind it.
pub mod Places
pub mod Bounds
use tapgres.Prelude.{
  ℕ, zero, suc, ◌+◌, ◌-◌, Bool, true, false, not, ◌&&◌, ◌||◌, Option, none, some, List, [], ◌∷◌,
  ◌++◌, map, ltb, leb, ◌==◌, if◌then◌else◌, length, drop,
}
use tapgres.Outcome.{Outcome, value, error, panic, out_of_fuel, ◌>>=◌}
use tapgres.Event.{Text}
use tapgres.Utf8.{len_utf8, utf8_len, slice_from}
use tapgres.Filter.{
  codes, text_eq, starts_with, FilterParseError, TokenKind, word, string, equal, not_equal,
  contains, matches_op, in_op, and_op, or_op, not_op, left_paren, right_paren, left_brace,
  right_brace, comma, end, Token,
}

abbrev pub Lexed : Type 0 → Type 0
Lexed A = Outcome FilterParseError A

abbrev pub fail : {A : Type 0} → ℕ → Text → Lexed A
fail position message = error (record { message = message; position = position })

-- `char::is_whitespace`: Unicode's White_Space.
unfoldable pub is_whitespace : ℕ → Bool
is_whitespace c =
    (leb 9 c && leb c 13)
    || c == 32
    || c == 0x85
    || c == 0xa0
    || c == 0x1680
    || (leb 0x2000 c && leb c 0x200a)
    || c == 0x2028
    || c == 0x2029
    || c == 0x202f
    || c == 0x205f
    || c == 0x3000

pub simple : ℕ → Option TokenKind
simple c =
    if c == b'('
    then some left_paren
    else if c == b')'
    then some right_paren
    else if c == b'{'
    then some left_brace
    else if c == b'}'
    then some right_brace
    else if c == b','
    then some comma
    else none

pub is_delimiter : ℕ → Bool
is_delimiter c =
    is_whitespace c
    || c == b'('
    || c == b')'
    || c == b'{'
    || c == b'}'
    || c == b','
    || c == b'='
    || c == b'!'
    || c == b'&'
    || c == b'|'

pub unescape : ℕ → Option ℕ
unescape c =
    if c == b'"'
    then some b'"'
    else if c == 92
    then some 92
    else if c == b'n'
    then some 10
    else if c == b'r'
    then some 13
    else if c == b't'
    then some 9
    else none

abbrev pub unterminated : ℕ → Lexed (Text × ℕ × Text)
unterminated start = fail start (codes "unterminated string literal")

-- The loop of `lex_string`, with the value read so far; it returns the value, and the place behind
-- the closing quote.
pub lex_string : ℕ → Bool → ℕ → Text → Text → Lexed (Text × ℕ × Text)
lex_string start raw position read [] = unterminated start
lex_string start raw position read (c ∷ []) =
    if c == b'"' then value (read, position + len_utf8 c, []) else unterminated start
lex_string start raw position read (c ∷ escaped ∷ rest) =
    let next = position + len_utf8 c in
    elim (c == b'"') [
      | true ↦ value (read, next, escaped ∷ rest)
      | false ↦ elim (not (c == 92) || raw) [
        | true ↦ lex_string start raw next (read ++ c ∷ []) (escaped ∷ rest)
        | false ↦ elim (unescape escaped) [
          | some x ↦ lex_string start raw (next + len_utf8 escaped) (read ++ x ∷ []) rest
          | none ↦
              fail (next - 1) (
                codes "unsupported escape '\\"
                ++ escaped ∷ codes "' (use a raw string for regexes)")
        ]
      ]
    ]

-- The loop that collects a word.
pub lex_word : ℕ → Text → Text × ℕ × Text
lex_word position [] = ([], position, [])
lex_word position (c ∷ rest) =
    let (letters, next, behind) = lex_word (position + len_utf8 c) rest in
    if is_delimiter c then ([], position, c ∷ rest) else (c ∷ letters, next, behind)

pub to_ascii_lowercase : ℕ → ℕ
to_ascii_lowercase c = if leb b'A' c && leb c b'Z' then c + 32 else c

pub eq_ignore_ascii_case : Text → Text → Bool
eq_ignore_ascii_case s t = text_eq (map to_ascii_lowercase s) (map to_ascii_lowercase t)

pub keyword : Text → TokenKind
keyword letters =
    if eq_ignore_ascii_case letters (codes "and")
    then and_op
    else if eq_ignore_ascii_case letters (codes "or")
    then or_op
    else if eq_ignore_ascii_case letters (codes "not")
    then not_op
    else if eq_ignore_ascii_case letters (codes "contains")
    then contains
    else if eq_ignore_ascii_case letters (codes "matches")
    then matches_op
    else if eq_ignore_ascii_case letters (codes "in")
    then in_op
    else word letters

-- What one round of the loop of `lex` comes to: a token, or none, and the place behind.
abbrev pub Round : Type 0
Round = Lexed (Option Token × ℕ × Text)

abbrev pub token_at : ℕ → TokenKind → ℕ → Text → Round
token_at start kind position rest =
    value (some (record { kind = kind; position = start }), position, rest)

pub lex_rest : ℕ → ℕ → Text → Round
lex_rest start c rest =
    let (letters, position, behind) = lex_word start (c ∷ rest) in
    elim letters [
      | [] ↦ fail start (codes "unexpected character '" ++ c ∷ codes "'")
      | l ∷ more ↦ token_at start (keyword (l ∷ more)) position behind
    ]

abbrev pub string_at : ℕ → Lexed (Text × ℕ × Text) → Round
string_at start read =
    read >>= λ (letters, position, behind). token_at start (string letters) position behind

pub lex_operator : ℕ → ℕ → Text → Round
lex_operator start c rest =
    if starts_with (codes "==") (c ∷ rest)
    then token_at start equal (start + 2) (drop 1 rest)
    else if starts_with (codes "!=") (c ∷ rest)
    then token_at start not_equal (start + 2) (drop 1 rest)
    else if starts_with (codes "&&") (c ∷ rest)
    then token_at start and_op (start + 2) (drop 1 rest)
    else if starts_with (codes "||") (c ∷ rest)
    then token_at start or_op (start + 2) (drop 1 rest)
    else if c == b'!'
    then token_at start not_op (start + 1) rest
    else if c == b'=' || c == b'&' || c == b'|'
    then fail start (codes "unexpected operator '" ++ c ∷ codes "'")
    else if c == b'"'
    then string_at start (lex_string start false (start + 1) [] rest)
    else if starts_with (codes "r\"") (c ∷ rest)
    then string_at start (lex_string start true (start + 2) [] (drop 1 rest))
    else lex_rest start c rest

pub lex_round : ℕ → ℕ → Text → Round
lex_round position c rest =
    if is_whitespace c then value (none, position + len_utf8 c, rest) else elim (simple c) [
      | some kind ↦ token_at position kind (position + len_utf8 c) rest
      | none ↦ lex_operator position c rest
    ]

abbrev pub push : Option Token → List Token → List Token
push none tokens = tokens
push (some t) tokens = t ∷ tokens

-- `chars().next().unwrap()`
abbrev pub first : Text → Lexed (ℕ × Text)
first [] = panic
first (c ∷ rest) = value (c, rest)

-- The loop of `lex`. Each round takes a character at least, so one more than the input is fuel
-- enough. The input is sliced at each round's position; that `next` of no characters is unwrapped is a panic.
pub lex_from : ℕ → ℕ → Text → Lexed (List Token)
lex_from zero position input = out_of_fuel
lex_from (suc fuel) position input =
    if ltb position (utf8_len input)
    then (do
      (c, rest) ← slice_from position input >>= first
      (token, next, behind) ← lex_round position c rest
      tokens ← lex_from fuel next input
      value (push token tokens))
    else value (record { kind = end; position = utf8_len input } ∷ [])

pub lex : Text → Lexed (List Token)
lex input = lex_from (suc (length input)) 0 input
