-- ===== src/Filter/Values.antt =====
-- src/filter.rs: the tests on tokens and the values that a token can stand for.
pub mod Fits
use mathlib.Core.Option.{map}
use tapgres.Prelude.{
  ℕ, zero, suc, ◌+◌, ◌*◌, ◌-◌, Bool, true, false, not, ◌&&◌, ◌||◌, Option, none, some, List, [],
  ◌∷◌, ◌++◌, inl, inr, leb, ◌==◌, if◌then◌else◌, length,
}
use tapgres.Outcome.{Outcome, value, error, panic, out_of_fuel, ◌>>=◌, ◌>>◌, index}
use tapgres.Net.{IpAddr}
use tapgres.Event.{Text, MessageDirection, frontend_to_backend, backend_to_frontend}
use tapgres.Filter.{
  codes, text_eq, Engine, Field, client_ip, client_port, message_type, message_text,
  message_direction, Value, ip_value, port_value, text_value, direction_value, Comparison, equal_to,
  not_equal_to, containing, matching, in_set, Predicate, Expr, predicate, and_expr, or_expr,
  not_expr, parse_field, field_name, is_text, FilterParseError, TokenKind, word, string, equal,
  not_equal, contains, matches_op, in_op, and_op, or_op, not_op, left_paren, right_paren,
  left_brace, right_brace, comma, end, Token, DisplayFilter,
}
use tapgres.Filter.Lexer.{Lexed, fail, eq_ignore_ascii_case, lex, is_whitespace}

-- The `matches!` tests on a token's kind.
abbrev pub is_or : TokenKind → Bool
is_or or_op = true
is_or _ = false

abbrev pub is_and : TokenKind → Bool
is_and and_op = true
is_and _ = false

abbrev pub is_not : TokenKind → Bool
is_not not_op = true
is_not _ = false

abbrev pub is_left_paren : TokenKind → Bool
is_left_paren left_paren = true
is_left_paren _ = false

abbrev pub is_right_paren : TokenKind → Bool
is_right_paren right_paren = true
is_right_paren _ = false

abbrev pub is_left_brace : TokenKind → Bool
is_left_brace left_brace = true
is_left_brace _ = false

abbrev pub is_right_brace : TokenKind → Bool
is_right_brace right_brace = true
is_right_brace _ = false

abbrev pub is_comma : TokenKind → Bool
is_comma comma = true
is_comma _ = false

abbrev pub is_end : TokenKind → Bool
is_end end = true
is_end _ = false

-- `token_value`
pub token_value : TokenKind → Option Text
token_value (word t) = some t
token_value (string t) = some t
token_value _ = none

-- `parse_direction`; the arrow is U+2192.
pub parse_direction : Text → Option MessageDirection
parse_direction t =
    if eq_ignore_ascii_case t (codes "f2b") || text_eq t (b'F' ∷ 0x2192 ∷ b'B' ∷ [])
    then some frontend_to_backend
    else if eq_ignore_ascii_case t (codes "b2f") || text_eq t (b'B' ∷ 0x2192 ∷ b'F' ∷ [])
    then some backend_to_frontend
    else none

-- `u16::from_str`: an optional plus sign, decimal digits, at least one, and no overflow.
pub parse_digits : ℕ → Text → Option ℕ
parse_digits n [] = some n
parse_digits n (c ∷ t) =
    let rest = parse_digits (n * 10 + (c - b'0')) t in
    if leb b'0' c && leb c b'9' && leb (n * 10 + (c - b'0')) 65535 then rest else none

pub parse_u16 : Text → Option ℕ
parse_u16 [] = none
parse_u16 (c ∷ []) = if c == b'+' then none else parse_digits 0 (c ∷ [])
parse_u16 (c ∷ d ∷ t) = if c == b'+' then parse_digits 0 (d ∷ t) else parse_digits 0 (c ∷ d ∷ t)

abbrev pub or_fail : {A : Type 0} → Option A → ℕ → Text → ℕ → Lexed (A × ℕ)
or_fail none position message cursor = fail position message
or_fail (some a) position message cursor = value (a, cursor)

-- `parse_value` behind its `take`: the token's kind and position, and the cursor after it.
abbrev pub ip_of : (Text → Option IpAddr) → Option Text → ℕ → ℕ → Lexed (Value × ℕ)
ip_of addr none position cursor = fail position (codes "client.ip requires an IP address")
ip_of addr (some t) position cursor =
    or_fail (map ip_value (addr t)) position (codes "invalid IP address '" ++ t ++ codes "'") cursor

pub port_of : TokenKind → ℕ → ℕ → Lexed (Value × ℕ)
port_of (word t) position cursor =
    or_fail (map port_value (parse_u16 t)) position
      (codes "invalid client port '" ++ t ++ codes "'") cursor
port_of _ position cursor = fail position (codes "client.port requires an integer")

pub text_of : Field → TokenKind → ℕ → ℕ → Lexed (Value × ℕ)
text_of f (string t) position cursor = value (text_value t, cursor)
text_of f _ position cursor = fail position (field_name f ++ codes " requires a quoted string")

pub direction_of : TokenKind → ℕ → ℕ → Lexed (Value × ℕ)
direction_of (string t) position cursor =
    or_fail (map direction_value (parse_direction t)) position
      (codes "invalid direction '" ++ t ++ codes "' (expected f2b or b2f)") cursor
direction_of _ position cursor = fail position (codes "message.direction requires a quoted string")

pub value_of : (Text → Option IpAddr) → Field → TokenKind → ℕ → ℕ → Lexed (Value × ℕ)
value_of addr client_ip k position cursor = ip_of addr (token_value k) position cursor
value_of addr client_port k position cursor = port_of k position cursor
value_of addr message_type k position cursor = text_of message_type k position cursor
value_of addr message_text k position cursor = text_of message_text k position cursor
value_of addr message_direction k position cursor = direction_of k position cursor
