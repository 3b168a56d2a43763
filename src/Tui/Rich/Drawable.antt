-- ===== src/Tui/Rich/Drawable.antt =====
-- Which events can be drawn, and the lines of those that are.
use tapgres.Prelude.{ℕ, ◌≡◌, true, Option, none, some, List, [], ◌∷◌, ◌++◌, get_elem?}
use tapgres.Outcome.{value, holds}
use tapgres.Outcome.Unless.{Unless, sound, Unless-if, Unless-bind}
use tapgres.Event.{Output, EventDetail}
use tapgres.Filter.{DisplayFilter}
use tapgres.Decode.{rendered, detail_of, matches_filter}
use tapgres.Tui.{Ui, Regex}
use tapgres.Tui.Line.{Span}
use tapgres.Tui.Line.Broken.{CharBehindTag, build_line-Unless, build_header_line-Unless}
use tapgres.Tui.Rich.{View, render_rich, lines_by, flat_lines, event_lines}

flat_lines-Unless :
    (evt : Output) → Unless (CharBehindTag (rendered evt)) (λ l. Unit {0}) (flat_lines evt)
flat_lines-Unless evt =
    Unless-bind _ _ (build_line-Unless (rendered evt)) λ spans _ _. sound (holds tt)

lines_by-Unless :
    (evt : Output) (o : Option EventDetail)
    → Unless (CharBehindTag (rendered evt)) (λ l. Unit {0}) (lines_by evt o)
unfolding render_rich
lines_by-Unless evt none = flat_lines-Unless evt
lines_by-Unless evt (some detail) =
    Unless-bind _ _ (build_header_line-Unless (rendered evt)) λ header _ _. sound (holds tt)

pub event_lines-Unless :
    (evt : Output) (view : View)
    → Unless (CharBehindTag (rendered evt)) (λ l. Unit {0}) (event_lines evt view)
unfolding event_lines
event_lines-Unless evt view =
    Unless-if view.rich _ _ (λ _. lines_by-Unless evt (detail_of evt)) (λ _. flat_lines-Unless evt)

-- Of the events that match, one has a character of more than a byte right behind a tag in its line.
pub record Undrawable (ui : Ui) (f : DisplayFilter (Regex ui)) (events : List Output) : Type 0 where
  pub output : Output
  pub position : ℕ
  pub stands : get_elem? events position ≡ some output
  pub matched : matches_filter ui.engine f output ≡ true
  pub behind_tag : CharBehindTag (rendered output)

-- The lines are those of the events, one event after another.
pub data Shows (view : View) : List Output → List (List Span) → Type 0 where
  nothing : Shows view [] []
  event :
      {evt : Output} {lines : List (List Span)} {events : List Output} {rest : List (List Span)}
      → event_lines evt view ≡ value lines
      → Shows view events rest
      → Shows view (evt ∷ events) (lines ++ rest)
