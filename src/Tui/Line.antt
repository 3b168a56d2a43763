-- ===== src/Tui/Line.antt =====
-- src/tui.rs: the parts of a decoded line, and the spans that it is drawn in. Offsets count bytes of UTF-8.
pub mod Spans
pub mod Broken
mod Tests
use tapgres.Prelude.{
  ℕ, zero, suc, ◌+◌, ◌-◌, min, Bool, true, false, Option, none, some, List, [], ◌∷◌, ◌++◌, ltb,
  if◌then◌else◌,
}
use tapgres.Outcome.{value, panic, ◌>>=◌}
use tapgres.Event.{Text}
use tapgres.Filter.{codes, starts_with, has_substring}
use tapgres.Utf8.{len_utf8, utf8_len, slice_from, slice}
use tapgres.Tui.{Run}

pub data Color : Type 0 where
  cyan magenta red yellow green blue dark_gray : Color

-- A piece of text with its colour, if it has one, and whether it is bold.
pub record Span : Type 0 where
  pub content : Text
  pub color : Option Color
  pub bold : Bool

pub record LineParts : Type 0 where
  pub color : Color
  pub prefix_end : ℕ
  pub tag_end : ℕ
  pub kind_start : ℕ
  pub kind_end : ℕ

abbrev pub behind : ℕ → Option ℕ → Option ℕ
behind n none = none
behind n (some p) = some (n + p)

-- `str::find`
pub find : Text → Text → Option ℕ
find needle [] = if starts_with needle [] then some 0 else none
find needle (c ∷ hay) =
    if starts_with needle (c ∷ hay) then some 0 else behind (len_utf8 c) (find needle hay)

pub tag_f2b : Text
tag_f2b = codes "[F→B]"

pub tag_b2f : Text
tag_b2f = codes "[B→F]"

-- The tags are tried one after the other.
abbrev pub chosen : Option ℕ → Option ℕ → Option (Color × ℕ × ℕ)
chosen (some start) second = some (cyan, start, start + utf8_len tag_f2b)
chosen none (some start) = some (magenta, start, start + utf8_len tag_b2f)
chosen none none = none

pub direction_split : Text → Option (Color × ℕ × ℕ)
direction_split line = chosen (find tag_f2b line) (find tag_b2f line)

abbrev pub kind_at : Text → ℕ → Text → ℕ
kind_at line kind_start tail = elim (find (codes ": ") tail) [
  | none ↦ utf8_len line
  | some p ↦ kind_start + p
]

abbrev pub parts_at : Text → Color × ℕ × ℕ → Run LineParts
parts_at line (color, prefix_end, tag_end) =
    let kind_start = min (tag_end + 1) (utf8_len line) in
    slice_from kind_start line >>= λ tail. value (record {
      color = color;
      prefix_end = prefix_end;
      tag_end = tag_end;
      kind_start = kind_start;
      kind_end = kind_at line kind_start tail;
    })

abbrev pub parts_of : Text → Option (Color × ℕ × ℕ) → Run (Option LineParts)
parts_of line none = value none
parts_of line (some found) = parts_at line found >>= λ p. value (some p)

pub parse_line : Text → Run (Option LineParts)
parse_line line = parts_of line (direction_split line)

abbrev pub plain : Option Color → Text → List Span
plain color line = record { content = line; color = color; bold = false } ∷ []

-- The spans up to the end of the message's kind.
pub head_spans : Text → LineParts → Run (List Span)
head_spans line p = slice 0 p.prefix_end line >>= λ prefix.
    slice p.prefix_end p.tag_end line >>= λ tag. slice p.tag_end p.kind_start line >>= λ gap.
    slice p.kind_start p.kind_end line >>= λ kind. value (
      record { content = prefix; color = some dark_gray; bold = false }
      ∷ record { content = tag; color = some p.color; bold = true }
      ∷ record { content = gap; color = none; bold = false }
      ∷ record { content = kind; color = some p.color; bold = true }
      ∷ [])

pub full_spans : Text → LineParts → Run (List Span)
full_spans line p = head_spans line p >>= λ spans.
    slice_from p.kind_end line >>= λ rest. value (spans ++ plain none rest)

abbrev pub spans_of : Text → (LineParts → Run (List Span)) → Option LineParts → Run (List Span)
spans_of line spans none = value (plain none line)
spans_of line spans (some p) = spans p

pub build_line : Text → Run (List Span)
build_line line =
    if has_substring (codes "⚠") line
    then value (plain (some red) line)
    else if has_substring (codes "===") line
    then value (plain (some yellow) line)
    else parse_line line >>= spans_of line (full_spans line)

pub build_header_line : Text → Run (List Span)
build_header_line line = parse_line line >>= spans_of line (head_spans line)
