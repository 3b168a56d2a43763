-- ===== src/Filter.antt =====
-- src/filter.rs: display filters, their data and their evaluation. Regular expressions are those of
-- the regex crate, a parameter `Engine`, as is the reading of an IP address.
pub mod Lexer
pub mod Values
pub mod Parser
mod Tests
use Prim.Native.Char.{code}
use Prim.Native.String.{String}
use tapgres.Prelude.{
  ℕ, ◌+◌, Bool, true, false, not, ◌&&◌, ◌||◌, Option, none, some, List, [], ◌∷◌, ◌++◌, ◌⊎◌, ◌==◌,
  ltb, if◌then◌else◌,
}
use tapgres.Net.{IpAddr, v4, v6}
use tapgres.Event.{Text, MessageDirection, frontend_to_backend, backend_to_frontend, DisplayMessage}

abbrev pub codes : String → Text
codes String.[] = []
codes (String.◌∷◌ c s) = code c ∷ codes s

-- `RegexBuilder::new(pattern).case_insensitive(true).build()`, with the text of its error;
-- `Regex::is_match`; and `IpAddr::from_str`.
pub record Engine : Type 1 where
  pub Regex : Type 0
  pub build : Text → Regex ⊎ Text
  pub is_match : Regex → Text → Bool
  pub parse_ip_addr : Text → Option IpAddr

pub data Field : Type 0 where
  client_ip client_port message_type message_text message_direction : Field

pub data Value : Type 0 where
  ip_value : IpAddr → Value
  port_value : ℕ → Value
  text_value : Text → Value
  direction_value : MessageDirection → Value

pub data Comparison (Regex : Type 0) : Type 0 where
  equal_to not_equal_to : Value → Comparison Regex
  containing : Text → Comparison Regex
  matching : Regex → Comparison Regex
  in_set : List Value → Comparison Regex

pub record Predicate (Regex : Type 0) : Type 0 where
  pub field : Field
  pub comparison : Comparison Regex

pub data Expr (Regex : Type 0) : Type 0 where
  predicate : Predicate Regex → Expr Regex
  and_expr or_expr : Expr Regex → Expr Regex → Expr Regex
  not_expr : Expr Regex → Expr Regex

-- `==` of strings.
unfoldable pub text_eq : Text → Text → Bool
text_eq [] [] = true
text_eq [] (d ∷ t) = false
text_eq (c ∷ s) [] = false
text_eq (c ∷ s) (d ∷ t) = c == d && text_eq s t

unfoldable pub starts_with : Text → Text → Bool
starts_with [] hay = true
starts_with (c ∷ needle) [] = false
starts_with (c ∷ needle) (d ∷ hay) = c == d && starts_with needle hay

-- `str::contains`.
unfoldable pub has_substring : Text → Text → Bool
has_substring needle [] = starts_with needle []
has_substring needle (d ∷ hay) = starts_with needle (d ∷ hay) || has_substring needle hay

pub parse_field : Text → Option Field
parse_field value =
    if text_eq value (codes "client.ip")
    then some client_ip
    else if text_eq value (codes "client.port")
    then some client_port
    else if text_eq value (codes "message.type")
    then some message_type
    else if text_eq value (codes "message.text")
    then some message_text
    else if text_eq value (codes "message.direction")
    then some message_direction
    else none

pub field_name : Field → Text
field_name client_ip = codes "client.ip"
field_name client_port = codes "client.port"
field_name message_type = codes "message.type"
field_name message_text = codes "message.text"
field_name message_direction = codes "message.direction"

abbrev pub is_text : Field → Bool
is_text client_ip = false
is_text client_port = false
is_text message_type = true
is_text message_text = true
is_text message_direction = false

unfoldable pub ip_eq : IpAddr → IpAddr → Bool
ip_eq (v4 a b c d) (v4 i j k l) = a == i && b == j && c == k && d == l
ip_eq (v4 a b c d) (v6 y) = false
ip_eq (v6 x) (v4 i j k l) = false
ip_eq (v6 x) (v6 y) = text_eq x y

pub direction_eq : MessageDirection → MessageDirection → Bool
direction_eq frontend_to_backend frontend_to_backend = true
direction_eq frontend_to_backend backend_to_frontend = false
direction_eq backend_to_frontend frontend_to_backend = false
direction_eq backend_to_frontend backend_to_frontend = true

-- Field::equals
pub equals : Field → Value → DisplayMessage → Bool
equals client_ip (ip_value expected) m = ip_eq m.client.ip expected
equals client_port (port_value expected) m = m.client.port == expected
equals message_type (text_value expected) m = text_eq m.kind expected
equals message_text (text_value expected) m = text_eq m.text expected
equals message_direction (direction_value expected) m = direction_eq m.direction expected
equals _ _ m = false

-- Field::text
pub field_text : Field → DisplayMessage → Option Text
field_text message_type m = some m.kind
field_text message_text m = some m.text
field_text _ m = none

pub any_equals : Field → List Value → DisplayMessage → Bool
any_equals f [] m = false
any_equals f (v ∷ values) m = equals f v m || any_equals f values m

abbrev pub is_some_and : Option Text → (Text → Bool) → Bool
is_some_and none p = false
is_some_and (some t) p = p t

module _ (engine : Engine) where
  -- Predicate::matches
  pub compares : Field → Comparison engine.Regex → DisplayMessage → Bool
  compares f (equal_to v) m = equals f v m
  compares f (not_equal_to v) m = not (equals f v m)
  compares f (containing needle) m = is_some_and (field_text f m) (λ t. has_substring needle t)
  compares f (matching regex) m = is_some_and (field_text f m) (λ t. engine.is_match regex t)
  compares f (in_set values) m = any_equals f values m

  -- Expr::matches
  pub matches : Expr engine.Regex → DisplayMessage → Bool
  matches (predicate p) m = compares p.field p.comparison m
  matches (and_expr l r) m = matches l m && matches r m
  matches (or_expr l r) m = matches l m || matches r m
  matches (not_expr e) m = not (matches e m)

-- The message of an error is its text, as the source formats it.
pub record FilterParseError : Type 0 where
  pub message : Text
  pub position : ℕ

pub data TokenKind : Type 0 where
  word string : Text → TokenKind
  equal not_equal contains matches_op in_op and_op or_op not_op left_paren right_paren left_brace
        right_brace comma end :
      TokenKind

pub record Token : Type 0 where
  pub kind : TokenKind
  pub position : ℕ

pub record DisplayFilter (Regex : Type 0) : Type 0 where
  pub expression : Text
  pub root : Option (Expr Regex)

-- DisplayFilter::matches
pub filter_matches : (engine : Engine) → DisplayFilter engine.Regex → DisplayMessage → Bool
filter_matches engine f m = elim f.root [ none ↦ true | some e ↦ matches engine e m ]
