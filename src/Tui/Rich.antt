-- ===== src/Tui/Rich.antt =====
-- src/tui.rs: the lines that an event is drawn in, as one line or in rich mode as a table, and the names and icons of types.
pub mod Drawable
use tapgres.Prelude.{
  ℕ, Bool, true, false, ◌||◌, Option, none, some, List, [], ◌∷◌, ◌++◌, map, ◌==◌, if◌then◌else◌,
}
use tapgres.Outcome.{value, ◌>>=◌}
use tapgres.Event.{Text, Output, EventDetail, row_description, data_row, DataColumn, FieldSummary}
use tapgres.Decode.{show, rendered, detail_of}
use tapgres.Filter.{codes}
use tapgres.Tui.{Run}
use tapgres.Tui.Line.{
  Color, green, yellow, cyan, magenta, blue, dark_gray, Span, plain, build_line, build_header_line,
}

pub record View : Type 0 where
  pub rich : Bool
  pub wrap : Bool

pub type_label : ℕ → Text
type_label oid =
    if oid == 16
    then codes "bool"
    else if oid == 17
    then codes "bytea"
    else if oid == 18
    then codes "char"
    else if oid == 19
    then codes "name"
    else if oid == 20
    then codes "int8"
    else if oid == 21
    then codes "int2"
    else if oid == 23
    then codes "int4"
    else if oid == 25
    then codes "text"
    else if oid == 114
    then codes "json"
    else if oid == 700
    then codes "float4"
    else if oid == 701
    then codes "float8"
    else if oid == 1043
    then codes "varchar"
    else if oid == 1082
    then codes "date"
    else if oid == 1114
    then codes "timestamp"
    else if oid == 1184
    then codes "timestamptz"
    else if oid == 1186
    then codes "interval"
    else if oid == 1700
    then codes "numeric"
    else if oid == 2950
    then codes "uuid"
    else if oid == 3802
    then codes "jsonb"
    else codes "oid=" ++ show oid

-- The glyph and its colour.
pub type_icon : ℕ → Option (ℕ × Color)
type_icon oid =
    if oid == 16
    then some (0xf00c, green)
    else if oid == 20 || oid == 21 || oid == 23
    then some (0xf292, yellow)
    else if oid == 700 || oid == 701 || oid == 1700
    then some (0xf1ec, yellow)
    else if oid == 18 || oid == 19 || oid == 25 || oid == 1042 || oid == 1043
    then some (0xf031, cyan)
    else if oid == 114 || oid == 3802
    then some (0xf121, magenta)
    else if oid == 2950
    then some (0xf577, magenta)
    else if oid == 17
    then some (0xf1c0, green)
    else if oid == 1082
    then some (0xf073, cyan)
    else if oid == 1083 || oid == 1114 || oid == 1184 || oid == 1186 || oid == 1266
    then some (0xf017, cyan)
    else none

abbrev pub colored : Color → Text → List Span
colored color t = plain (some color) t

abbrev pub icon_spans : Option (ℕ × Color) → List Span
icon_spans none = []
icon_spans (some (glyph, color)) = colored color (glyph ∷ []) ++ plain none (codes " ")

pub type_spans : ℕ → List Span
type_spans oid = icon_spans (type_icon oid) ++ colored dark_gray (type_label oid)

abbrev pub key_span : Text → List Span
key_span name = record { content = name; color = some blue; bold = true } ∷ []

pub column_line : DataColumn → List Span
column_line c =
    plain none (codes "   ")
    ++ key_span c.name
    ++ plain none (codes " = ")
    ++ plain none c.value
    ++ plain none (codes "  ")
    ++ type_spans c.type_oid

pub field_line : FieldSummary → List Span
field_line f =
    plain none (codes "   ") ++ key_span f.name ++ plain none (codes "  ") ++ type_spans f.type_oid

abbrev pub detail_lines : EventDetail → List (List Span)
detail_lines (data_row columns) = map column_line columns
detail_lines (row_description fields) = map field_line fields

pub render_rich : Text → EventDetail → Run (List (List Span))
render_rich t detail = build_header_line t >>= λ header. value (header ∷ detail_lines detail)

abbrev pub flat_lines : Output → Run (List (List Span))
flat_lines evt = build_line (rendered evt) >>= λ spans. value (spans ∷ [])

abbrev pub lines_by : Output → Option EventDetail → Run (List (List Span))
lines_by evt none = flat_lines evt
lines_by evt (some detail) = render_rich (rendered evt) detail

pub event_lines : Output → View → Run (List (List Span))
event_lines evt view = if view.rich then lines_by evt (detail_of evt) else flat_lines evt
