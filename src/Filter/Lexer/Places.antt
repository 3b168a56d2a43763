-- ===== src/Filter/Lexer/Places.antt =====
-- Places in a text: a position in bytes, and the characters behind it.
use tapgres.Prelude.{
  ℕ, ◌+◌, ◌≤◌, ◌≡◌, refl, sym, ap, ◌∙◌, true, [], ◌∷◌, ◌++◌, append_assoc, append-nil, arith, ◌==◌,
  ==_iff, length, drop, length-append,
}
use tapgres.Outcome.{value}
use tapgres.Event.{Text}
use tapgres.Utf8.{len_utf8, utf8_len, slice_from}
use tapgres.Utf8.Slices.{starts_with-At, utf8_len-++, slice_from_at}
use tapgres.Filter.{FilterParseError, starts_with}

-- Between two places stands a text, with the bytes that the positions are apart.
pub record Moved (p : ℕ) (t : Text) (q : ℕ) (u : Text) : Type 0 where
  pub taken : Text
  pub splits : t ≡ taken ++ u
  pub bytes : q ≡ p + utf8_len taken

pub stay : (p : ℕ) (t : Text) → Moved p t p t
unfolding utf8_len
stay p t = record { taken = []; splits = refl; bytes = omega arith }

pub step :
    {p q : ℕ} (c n : ℕ) {t u : Text} → len_utf8 c ≡ n → Moved (p + n) t q u → Moved p (c ∷ t) q u
unfolding utf8_len
step c n e m = record {
  taken = c ∷ m.taken;
  splits = ap (λ l. c ∷ l) m.splits;
  bytes = omega (arith, m.bytes, e);
}

pub one : (p c n : ℕ) (t : Text) → len_utf8 c ≡ n → Moved p (c ∷ t) (p + n) t
one p c n t e = step c n e (stay (p + n) t)

-- Two characters of a byte each.
pub step_two :
    {p q : ℕ} (a b c : ℕ) {t u : Text}
    → len_utf8 a ≡ 1
    → len_utf8 b ≡ 1
    → starts_with (a ∷ b ∷ []) (c ∷ t) ≡ true
    → Moved (p + 2) (drop 1 t) q u
    → Moved p (c ∷ t) q u
unfolding utf8_len
step_two a b c {t} ea eb e m =
    let (rest, f) = starts_with-At (a ∷ b ∷ []) (c ∷ t) e in
    let same : drop 1 t ≡ rest = ap (drop 2) f in
    record {
      taken = a ∷ b ∷ m.taken;
      splits = f ∙ ap (λ l. a ∷ b ∷ l) (sym same ∙ m.splits);
      bytes = omega (arith, m.bytes, ea, eb);
    }

pub Moved-length : {p q : ℕ} {t u : Text} → Moved p t q u → length u ≤ length t
Moved-length {u = u} m = omega (arith, ap length m.splits, length-append m.taken u)

pub one_byte : (c k : ℕ) → (c == k) ≡ true → len_utf8 k ≡ 1 → len_utf8 c ≡ 1
one_byte c k e f = ap len_utf8 ((==_iff c k).0 e) ∙ f

pub further : {input t u : Text} {p q : ℕ} → Moved 0 input p t → Moved p t q u → Moved 0 input q u
further {u = u} m n = record {
  taken = m.taken ++ n.taken;
  splits = m.splits ∙ ap (λ l. m.taken ++ l) n.splits ∙ sym (append_assoc m.taken n.taken u);
  bytes = omega (arith, m.bytes, n.bytes, utf8_len-++ m.taken n.taken);
}

-- Slicing at a place of the input gives what stands there.
pub slice_from-Moved :
    (input rest : Text) (position : ℕ)
    → Moved 0 input position rest
    → slice_from {E = FilterParseError} position input ≡ value rest
slice_from-Moved input rest position m =
    slice_from_at m.taken rest input position m.splits (omega (arith, m.bytes))

-- There is nothing behind the end.
pub not_behind :
    (input : Text) (position : ℕ) → Moved 0 input position [] → utf8_len input ≤ position
not_behind input position m = omega (arith, m.bytes, ap utf8_len (m.splits ∙ append-nil m.taken))
