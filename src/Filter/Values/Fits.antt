-- ===== src/Filter/Values/Fits.antt =====
-- The values that a field is compared with are of the field's kind.
use mathlib.Core.Option.{map, some-injective}
use tapgres.Prelude.{
  ℕ, ◌+◌, ◌*◌, ◌-◌, ◌^◌, ◌<◌, ◌≡◌, refl, subst, false, Option, none, some, [], ◌∷◌, arith,
}
use tapgres.Outcome.{Ensures, holds, failed}
use tapgres.Net.{IpAddr}
use tapgres.Event.{Text, MessageDirection}
use tapgres.Filter.{
  Field, client_ip, client_port, message_type, message_text, message_direction, Value, ip_value,
  port_value, text_value, direction_value, TokenKind, word, string,
}
use tapgres.Filter.Values.{
  value_of, ip_of, port_of, text_of, direction_of, token_value, parse_u16, parse_digits,
  parse_direction, is_end, or_fail,
}

abbrev pub Fits : Field → Value → Type 0
Fits client_ip (ip_value addr) = Unit
Fits client_port (port_value n) = n < 2 ^ 16
Fits message_type (text_value t) = Unit
Fits message_text (text_value t) = Unit
Fits message_direction (direction_value d) = Unit
Fits _ _ = ⊥

parse_digits-bound : (n m : ℕ) (t : Text) → n < 2 ^ 16 → parse_digits n t ≡ some m → m < 2 ^ 16
unfolding parse_digits
parse_digits-bound n m [] h e = ground arith
parse_digits-bound n m (c ∷ t) h e = ground (arith, parse_digits-bound (n * 10 + (c - b'0')) m t)

parse_u16-bound : (m : ℕ) (t : Text) → parse_u16 t ≡ some m → m < 2 ^ 16
unfolding parse_u16
parse_u16-bound m [] e = cc
parse_u16-bound m (c ∷ []) e = ground (arith, parse_digits-bound 0 m (c ∷ []))
parse_u16-bound m (c ∷ d ∷ t) e =
    ground (arith, parse_digits-bound 0 m (d ∷ t), parse_digits-bound 0 m (c ∷ d ∷ t))

-- A value of the field's kind, read off a token that is not `End`.
pub record Read (f : Field) (k : TokenKind) (cursor : ℕ) (r : Value × ℕ) : Type 0 where
  pub fits : Fits f r.0
  pub not_end : is_end k ≡ false
  pub stays : r.1 ≡ cursor

or_fail-Read :
    (f : Field) (k : TokenKind) (position cursor : ℕ) (message : Text) (o : Option Value)
    → is_end k ≡ false
    → ((v : Value) → o ≡ some v → Fits f v)
    → Ensures (Read f k cursor) (or_fail o position message cursor)
or_fail-Read f k position cursor message none e fits = failed
or_fail-Read f k position cursor message (some v) e fits =
    holds (record { fits = fits v refl; not_end = e; stays = refl })

ip-Fits : (o : Option IpAddr) (v : Value) → map ip_value o ≡ some v → Fits client_ip v
ip-Fits none v e = cc
ip-Fits (some a) v e = subst (λ w. Fits client_ip w) (some-injective _ _ e) tt

direction-Fits :
    (o : Option MessageDirection) (v : Value)
    → map direction_value o ≡ some v
    → Fits message_direction v
direction-Fits none v e = cc
direction-Fits (some a) v e = subst (λ w. Fits message_direction w) (some-injective _ _ e) tt

port-Fits :
    (o : Option ℕ) (v : Value)
    → ((m : ℕ) → o ≡ some m → m < 2 ^ 16)
    → map port_value o ≡ some v
    → Fits client_port v
port-Fits none v h e = cc
port-Fits (some n) v h e = subst (λ w. Fits client_port w) (some-injective _ _ e) (h n refl)

ip_of-Read :
    (addr : Text → Option IpAddr) (k : TokenKind) (position cursor : ℕ)
    → Ensures (Read client_ip k cursor) (ip_of addr (token_value k) position cursor)
unfolding token_value
ip_of-Read addr (word t) position cursor =
    or_fail-Read client_ip (word t) position cursor _ (map ip_value (addr t)) refl
      (ip-Fits (addr t))
ip_of-Read addr (string t) position cursor =
    or_fail-Read client_ip (string t) position cursor _ (map ip_value (addr t)) refl
      (ip-Fits (addr t))
ip_of-Read addr _ position cursor = failed

port_of-Read :
    (k : TokenKind) (position cursor : ℕ)
    → Ensures (Read client_port k cursor) (port_of k position cursor)
unfolding port_of
port_of-Read (word t) position cursor =
    or_fail-Read client_port (word t) position cursor _ (map port_value (parse_u16 t)) refl
      (λ v. port-Fits (parse_u16 t) v (λ m. parse_u16-bound m t))
port_of-Read _ position cursor = failed

direction_of-Read :
    (k : TokenKind) (position cursor : ℕ)
    → Ensures (Read message_direction k cursor) (direction_of k position cursor)
unfolding direction_of
direction_of-Read (string t) position cursor =
    or_fail-Read message_direction (string t) position cursor _
      (map direction_value (parse_direction t)) refl (direction-Fits (parse_direction t))
direction_of-Read _ position cursor = failed

text_of-Read :
    (f : Field) (k : TokenKind) (position cursor : ℕ)
    → ((t : Text) → Fits f (text_value t))
    → Ensures (Read f k cursor) (text_of f k position cursor)
unfolding text_of
text_of-Read f (string t) position cursor fits =
    holds (record { fits = fits t; not_end = refl; stays = refl })
text_of-Read f _ position cursor fits = failed

pub value_of-Read :
    (addr : Text → Option IpAddr) (f : Field) (k : TokenKind) (position cursor : ℕ)
    → Ensures (Read f k cursor) (value_of addr f k position cursor)
unfolding value_of
value_of-Read addr client_ip k position cursor = ip_of-Read addr k position cursor
value_of-Read addr client_port k position cursor = port_of-Read k position cursor
value_of-Read addr message_type k position cursor =
    text_of-Read message_type k position cursor (λ t. tt)
value_of-Read addr message_text k position cursor =
    text_of-Read message_text k position cursor (λ t. tt)
value_of-Read addr message_direction k position cursor = direction_of-Read k position cursor
