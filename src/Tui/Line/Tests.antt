-- ===== src/Tui/Line/Tests.antt =====
-- Lines that are drawn, and one that is not.
use tapgres.Prelude.{◌≡◌, refl, [], ◌∷◌, some, none, true, false}
use tapgres.Outcome.{value, panic}
use tapgres.Event.{Text}
use tapgres.Filter.{codes, starts_with, has_substring}
use tapgres.Utf8.{len_utf8, utf8_len, split_at, slice_from, slice}
use tapgres.Tui.Line.{
  cyan, dark_gray, build_line, build_header_line, parse_line, direction_split, find, tag_f2b,
  head_spans,
}
use tapgres.Tui.Line.Spans.{Drawn, build_line-Drawn}

abbrev query_line : Text
query_line = codes "[0] [F→B] Query: SELECT 1"

build_line-Drawn_example : Drawn query_line (build_line query_line)
build_line-Drawn_example = build_line-Drawn query_line

drawn_header :
    build_header_line query_line
    ≡ value (
        record { content = codes "[0] "; color = some dark_gray; bold = false }
        ∷ record { content = codes "[F→B]"; color = some cyan; bold = true }
        ∷ record { content = codes " "; color = none; bold = false }
        ∷ record { content = codes "Query"; color = some cyan; bold = true }
        ∷ [])
unfolding build_header_line parse_line direction_split find starts_with tag_f2b slice_from split_at
    len_utf8 utf8_len head_spans slice
drawn_header = refl

-- A value sent by the server that holds a tag and a character of two bytes behind it.
undrawn : build_line (codes "[0] [B→F] DataRow: { a='[F→B]é' }") ≡ panic
unfolding build_line has_substring parse_line direction_split find starts_with tag_f2b slice_from
    split_at len_utf8 utf8_len head_spans slice
undrawn = refl
