-- ===== src/Filter/Lexer/Bounds.antt =====
-- The lexer stops, and its tokens end with the one `End` among them.
use tapgres.Prelude.{
  ℕ, zero, suc, ◌+◌, ◌≤◌, ◌<◌, ◌≡◌, refl, inl, inr, Bool, true, false, not, ◌||◌, Option, none,
  some, List, [], ◌∷◌, ◌++◌, arith, ◌==◌, ltb, length, drop, length-drop, Bool-cases,
}
use tapgres.Outcome.{
  Outcome, ◌>>=◌, Ensures, holds, failed, Ensures-bind, Ensures-if, Ensures-either, Ensures-elim,
  Ensures-option, Ensures-weaken,
}
use tapgres.Event.{Text}
use tapgres.Utf8.{len_utf8, utf8_len}
use tapgres.Filter.{Token, FilterParseError, TokenKind, codes, starts_with}
use tapgres.Filter.Lexer.{
  lex, lex_from, lex_round, lex_operator, lex_rest, lex_word, lex_string, string_at, token_at,
  simple, keyword, unescape, is_whitespace, is_delimiter, push, fail,
}
use tapgres.Filter.Lexer.Places.{
  Moved, stay, step, one, step_two, Moved-length, one_byte, further, slice_from-Moved, not_behind,
}
use tapgres.Filter.Values.{is_end}

-- Tokens of which the last, and only the last, is `End`.
pub data IsTokens : List Token → Type 0 where
  last : {t : Token} → is_end t.kind ≡ true → IsTokens (t ∷ [])
  more : {t : Token} {l : List Token} → is_end t.kind ≡ false → IsTokens l → IsTokens (t ∷ l)

abbrev NotEnd : Option Token → Type 0
NotEnd none = Unit
NotEnd (some t) = is_end t.kind ≡ false

-- What a round at `c` leaves: no `End`, and no more than `rest`, at the place behind what it took.
record Took (position c : ℕ) (rest : Text) (r : Option Token × ℕ × Text) : Type 0 where
  not_end : NotEnd r.0
  left : length r.2 ≤ length rest
  moved : Moved position (c ∷ rest) r.1 r.2

keyword-is_end : (letters : Text) → is_end (keyword letters) ≡ false
unfolding keyword
keyword-is_end letters = ground arith

simple-is_end : (c : ℕ) (k : TokenKind) → simple c ≡ some k → is_end k ≡ false
unfolding simple
simple-is_end c k e = ground arith

length-lex_word :
    (position : ℕ) (t : Text)
    → length (lex_word position t).0 + length (lex_word position t).2 ≡ length t
unfolding lex_word
length-lex_word position [] = omega arith
length-lex_word position (c ∷ t) = ground (arith, length-lex_word (position + len_utf8 c) t)

lex_word-Moved :
    (position : ℕ) (t : Text) → Moved position t (lex_word position t).1 (lex_word position t).2
unfolding lex_word
lex_word-Moved position [] = stay position []
lex_word-Moved position (c ∷ t) = elim (Bool-cases (is_delimiter c)) [
  | inl e ↦ rw e (stay position (c ∷ t))
  | inr e ↦ rw e (step c (len_utf8 c) refl (lex_word-Moved (position + len_utf8 c) t))
]

abbrev Within : ℕ → Text → Text × ℕ × Text → Type 0
Within position rest r = Moved position rest r.1 r.2

lex_string-Within :
    (start : ℕ) (raw : Bool) (position : ℕ) (read rest : Text)
    → Ensures (Within position rest) (lex_string start raw position read rest)
unfolding lex_string
lex_string-Within start raw position read [] = failed
lex_string-Within start raw position read (c ∷ []) =
    Ensures-if (c == b'"') _ _ (λ _. holds (one position c (len_utf8 c) [] refl)) (λ _. failed)
lex_string-Within start raw position read (c ∷ escaped ∷ rest) =
    let next = position + len_utf8 c in
    Ensures-elim (c == b'"') _ _ (λ _. holds (one position c (len_utf8 c) (escaped ∷ rest) refl))
      λ _.
        Ensures-elim (not (c == 92) || raw) _ _
          (λ _.
            Ensures-weaken (λ r m. step c (len_utf8 c) refl m)
              (lex_string-Within start raw next (read ++ c ∷ []) (escaped ∷ rest)))
          λ _.
            Ensures-option (unescape escaped) _ _ (λ _. failed)
              λ x _.
                Ensures-weaken
                  (λ r m. step c (len_utf8 c) refl (step escaped (len_utf8 escaped) refl m))
                  (lex_string-Within start raw (next + len_utf8 escaped) (read ++ x ∷ []) rest)

module _ (position c : ℕ) (rest : Text) where
  string_at-Took :
      (read : Outcome FilterParseError (Text × ℕ × Text))
      → Ensures (λ r. (length r.2 ≤ length rest) × Moved position (c ∷ rest) r.1 r.2) read
      → Ensures (Took position c rest) (string_at position read)
  string_at-Took read h =
      Ensures-bind read _ h λ r (le, m). holds (record { not_end = refl; left = le; moved = m })

  lex_rest-Took : Ensures (Took position c rest) (lex_rest position c rest)
  unfolding lex_rest
  lex_rest-Took = go (lex_word position (c ∷ rest)).0 (length-lex_word position (c ∷ rest))
    where
      go :
          (letters : Text)
          → length letters + length (lex_word position (c ∷ rest)).2 ≡ length (c ∷ rest)
          → Ensures (Took position c rest) (elim letters [
            | [] ↦ fail position (codes "unexpected character '" ++ c ∷ codes "'")
            | l ∷ letters' ↦
                token_at position
                  (keyword (l ∷ letters'))
                  (lex_word position (c ∷ rest)).1
                  (lex_word position (c ∷ rest)).2
          ])
      go [] e = failed
      go (l ∷ letters') e = holds (record {
        not_end = keyword-is_end (l ∷ letters');
        left = omega arith;
        moved = lex_word-Moved position (c ∷ rest);
      })

  -- An operator of two characters, and one of one.
  two-Took :
      (k : TokenKind) (a b : ℕ)
      → is_end k ≡ false
      → len_utf8 a ≡ 1
      → len_utf8 b ≡ 1
      → starts_with (a ∷ b ∷ []) (c ∷ rest) ≡ true
      → Ensures (Took position c rest) (token_at position k (position + 2) (drop 1 rest))
  two-Took k a b e ea eb f = holds (record {
    not_end = e;
    left = omega (arith, length-drop 1 rest);
    moved = step_two a b c ea eb f (stay (position + 2) (drop 1 rest));
  })

  one-Took :
      (k : TokenKind) (n : ℕ)
      → is_end k ≡ false
      → len_utf8 c ≡ n
      → Ensures (Took position c rest) (token_at position k (position + n) rest)
  one-Took k n e f =
      holds (record { not_end = e; left = omega arith; moved = one position c n rest f })

  quoted-Took :
      (c == b'"') ≡ true
      → Ensures
          (Took position c rest)
          (string_at position (lex_string position false (position + 1) [] rest))
  unfolding len_utf8
  quoted-Took e = string_at-Took _ (
      Ensures-weaken (λ r m. (Moved-length m, step c 1 (one_byte c b'"' e refl) m))
        (lex_string-Within position false (position + 1) [] rest))

  raw-Took :
      starts_with (codes "r\"") (c ∷ rest) ≡ true
      → Ensures
          (Took position c rest)
          (string_at position (lex_string position true (position + 2) [] (drop 1 rest)))
  unfolding len_utf8
  raw-Took e = string_at-Took _ (
      Ensures-weaken
        (λ r m.
          (omega (arith, Moved-length m, length-drop 1 rest), step_two b'r' b'"' c refl refl e m))
        (lex_string-Within position true (position + 2) [] (drop 1 rest)))

  lex_operator-Took : Ensures (Took position c rest) (lex_operator position c rest)
  unfolding lex_operator len_utf8
  lex_operator-Took =
      Ensures-if (starts_with (codes "==") (c ∷ rest)) _ _ (two-Took _ b'=' b'=' refl refl refl)
        λ _.
          Ensures-if (starts_with (codes "!=") (c ∷ rest)) _ _ (two-Took _ b'!' b'=' refl refl refl)
            λ _.
              Ensures-if (starts_with (codes "&&") (c ∷ rest)) _ _
                (two-Took _ b'&' b'&' refl refl refl)
                λ _.
                  Ensures-if (starts_with (codes "||") (c ∷ rest)) _ _
                    (two-Took _ b'|' b'|' refl refl refl)
                    λ _.
                      Ensures-if (c == b'!') _ _ (λ e. one-Took _ 1 refl (one_byte c b'!' e refl))
                        λ _. Ensures-either (c == b'=' || c == b'&' || c == b'|') _ _ failed (
                          Ensures-if (c == b'"') _ _ quoted-Took λ _.
                            Ensures-if (starts_with (codes "r\"") (c ∷ rest)) _ _ raw-Took
                              (λ _. lex_rest-Took))

  lex_round-Took : Ensures (Took position c rest) (lex_round position c rest)
  unfolding lex_round
  lex_round-Took =
      Ensures-if (is_whitespace c) _ _
        (λ _. holds (record {
          not_end = tt;
          left = omega arith;
          moved = one position c (len_utf8 c) rest refl;
        }))
        λ _.
          Ensures-option (simple c) _ _ (λ _. lex_operator-Took)
            λ k e. one-Took k (len_utf8 c) (simple-is_end c k e) refl

push-IsTokens : (t : Option Token) (l : List Token) → NotEnd t → IsTokens l → IsTokens (push t l)
push-IsTokens none l n h = h
push-IsTokens (some t) l n h = more n h

lex_from-IsTokens :
    (fuel position : ℕ) (input rest : Text)
    → Moved 0 input position rest
    → length rest < fuel
    → Ensures IsTokens (lex_from fuel position input)
unfolding lex_from
lex_from-IsTokens zero position input rest m h = absurd (omega arith)
lex_from-IsTokens (suc fuel) position input [] m h =
    Ensures-if (ltb position (utf8_len input)) _ _
      (λ e. absurd (ground (arith, e, not_behind input position m))) (λ _. holds (last refl))
lex_from-IsTokens (suc fuel) position input (c ∷ rest) m h =
    Ensures-if (ltb position (utf8_len input)) _ _
      (λ _.
        rw (slice_from-Moved input (c ∷ rest) position m, ◌>>=◌)
          (Ensures-bind _ _ (lex_round-Took position c rest) λ (t, next, behind) took.
            Ensures-bind _ _
              (lex_from-IsTokens fuel next input behind (further m took.moved)
                (omega (arith, took.left)))
              λ tokens i. holds (push-IsTokens t tokens took.not_end i)))
      (λ _. holds (last refl))

-- For every text, lexing stops without a panic, and tokens that it returns end with `End`, which
-- stands nowhere else among them.
pub lex-IsTokens : (input : Text) → Ensures IsTokens (lex input)
unfolding lex
lex-IsTokens input =
    lex_from-IsTokens (suc (length input)) 0 input input (stay 0 input) (omega arith)
