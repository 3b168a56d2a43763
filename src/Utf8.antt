-- ===== src/Utf8.antt =====
-- Rust's texts by the bytes of their UTF-8: lengths, and slices that panic inside a character. A text is a
-- list of code points.
pub mod Slices
use tapgres.Prelude.{ℕ, zero, suc, ◌+◌, ◌-◌, [], ◌∷◌, ltb, if◌then◌else◌}
use tapgres.Outcome.{Outcome, value, panic, ◌>>=◌}
use tapgres.Event.{Text}

-- `char::len_utf8`
unfoldable pub len_utf8 : ℕ → ℕ
len_utf8 c = if ltb c 128 then 1 else if ltb c 2048 then 2 else if ltb c 65536 then 3 else 4

-- `String::len` counts bytes.
unfoldable pub utf8_len : Text → ℕ
utf8_len [] = 0
utf8_len (c ∷ t) = len_utf8 c + utf8_len t

-- `str::split_at`: it panics inside a character and behind the end.
unfoldable pub split_at : {E : Type 0} → ℕ → Text → Outcome E (Text × Text)
split_at zero t = value ([], t)
split_at (suc n) [] = panic
split_at (suc n) (c ∷ t) =
    if ltb (suc n) (len_utf8 c)
    then panic
    else split_at (suc n - len_utf8 c) t >>= λ (front, back). value (c ∷ front, back)

-- `&line[i..]` and `&line[i..j]`
unfoldable pub slice_from : {E : Type 0} → ℕ → Text → Outcome E Text
slice_from i line = split_at i line >>= λ (front, back). value back

unfoldable pub slice : {E : Type 0} → ℕ → ℕ → Text → Outcome E Text
slice i j line = slice_from i line >>= λ t.
    if ltb j i then panic else split_at (j - i) t >>= λ (front, back). value front
