-- ===== src/Tui/Line/Broken.antt =====
-- A line that is not drawn has a character of several bytes behind a tag, in each way of drawing it.
use tapgres.Prelude.{ℕ, ◌<◌, ◌≡◌, refl, ◌⊎◌, Option, none, some, List, ◌∷◌, ◌++◌}
use tapgres.Outcome.{value, error, panic, out_of_fuel, ◌>>=◌, holds}
use tapgres.Outcome.Unless.{Unless, sound}
use tapgres.Event.{Text}
use tapgres.Utf8.{len_utf8}
use tapgres.Tui.{Run}
use tapgres.Tui.Line.{
  Span, LineParts, find, tag_f2b, tag_b2f, direction_split, parse_line, spans_of, head_spans,
  full_spans, build_line, build_header_line,
}
use tapgres.Tui.Line.Spans.{Drawn, drawn, broken, joined, build_line-Drawn, drawn_at-Drawn}

-- A character of more than a byte stands right behind a direction's tag.
pub record CharBehindTag (line : Text) : Type 0 where
  pub pre : Text
  pub tag : Text
  pub rest : Text
  pub char : ℕ
  pub is_tag : tag ≡ tag_f2b ⊎ tag ≡ tag_b2f
  pub splits : line ≡ pre ++ tag ++ (char ∷ rest)
  pub long : 1 < len_utf8 char

Drawn-Unless :
    (line : Text) (r : Run (List Span))
    → Drawn line r
    → Unless (CharBehindTag line) (λ s. joined s ≡ line) r
Drawn-Unless line (value s) (drawn e) = sound (holds e)
Drawn-Unless line (error x) d = elim x [ ]
Drawn-Unless line out_of_fuel d = elim d [ ]
Drawn-Unless line panic (broken pre tag rest c is_tag splits long) = Unless.broken (record {
  pre = pre;
  tag = tag;
  rest = rest;
  char = c;
  is_tag = is_tag;
  splits = splits;
  long = long;
})

pub build_line-Unless :
    (line : Text) → Unless (CharBehindTag line) (λ s. joined s ≡ line) (build_line line)
build_line-Unless line = Drawn-Unless line (build_line line) (build_line-Drawn line)

-- A run that a longer one begins with panics no more often.
begins :
    {A B C : Type 0} {P : B → Type 0} (r : Run A) (f : A → Run B)
    → Unless C P (r >>= f)
    → Unless C (λ a. Unit {0}) r
begins (value a) f h = sound (holds tt)
begins (error x) f h = elim x [ ]
begins panic f (Unless.broken b) = Unless.broken b
begins panic f (sound h) = elim h [ ]
begins out_of_fuel f (sound h) = elim h [ ]

header_of :
    (line : Text) (r : Run (Option LineParts))
    → Unless (CharBehindTag line) (λ s. joined s ≡ line) (r >>= spans_of line (full_spans line))
    → Unless (CharBehindTag line) (λ s. Unit {0}) (r >>= spans_of line (head_spans line))
unfolding full_spans
header_of line (value none) h = sound (holds tt)
header_of line (value (some p)) h = begins (head_spans line p) _ h
header_of line (error x) h = elim x [ ]
header_of line panic (Unless.broken b) = Unless.broken b
header_of line panic (sound h) = elim h [ ]
header_of line out_of_fuel (sound h) = elim h [ ]

pub build_header_line-Unless :
    (line : Text) → Unless (CharBehindTag line) (λ s. Unit {0}) (build_header_line line)
unfolding build_header_line parse_line direction_split
build_header_line-Unless line =
    header_of line (parse_line line)
      (Drawn-Unless line _ (drawn_at-Drawn line (find tag_f2b line) (find tag_b2f line) refl refl))
