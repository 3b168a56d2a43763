-- ===== src/Tui/View.antt =====
-- src/tui.rs: which events the message view shows and in which lines, `view_window` and the loop in `draw`, and the texts of numbers.
-- ratatui's height of a wrapped paragraph is a parameter.
pub mod Window
pub mod Shown
use tapgres.Prelude.{
  ℕ, zero, suc, ◌+◌, ◌-◌, ◌%◌, ◌^◌, min, max, Bool, true, false, not, ◌&&◌, ◌||◌, Option, none,
  some, List, [], ◌∷◌, ◌++◌, ltb, leb, ◌==◌, if◌then◌else◌, length, get_elem?, drop,
}
use tapgres.Outcome.{Outcome, value, panic, ◌>>=◌, ◌>>◌, index, slice}
use tapgres.Event.{Text, Output, EventDetail, row_description, data_row}
use tapgres.Decode.{show, detail_of}
use tapgres.Filter.{codes}
use tapgres.Tui.{App, Ui, Run, Regex}
use tapgres.Tui.Line.{Span}
use tapgres.Tui.Rich.{View, event_lines}

-- ratatui's `line_count` of a wrapped paragraph of lines, at a width.
abbrev pub LineCount : Type 0
LineCount = List (List Span) → ℕ → ℕ

abbrev pub detail_height : Option EventDetail → ℕ
detail_height (some (data_row columns)) = 1 + length columns
detail_height (some (row_description fields)) = 1 + length fields
detail_height none = 1

pub event_height : LineCount → Output → ℕ → View → Run ℕ
event_height line_count evt width view =
    if view.wrap
    then (event_lines evt view >>= λ lines. value (max (line_count lines (width % 2 ^ 16)) 1))
    else if view.rich
    then value (detail_height (detail_of evt))
    else value 1

-- The loops of `view_window`, over the positions in `visible`: `height` reads an item and measures it, and `rows`
-- have been filled. The first goes on from the newest item, with the items before `start` left; the second from
-- the scroll position, with so many items left.
pub backward : (ℕ → Run ℕ) → ℕ → ℕ → ℕ → Run ℕ
backward height log_h zero rows = value 0
backward height log_h (suc i) rows = do
  h ← height i
  elim (not (rows == 0) && ltb log_h (rows + h)) [
    | true ↦ value (suc i)
    | false ↦ elim (leb log_h (rows + h)) [
      | true ↦ value i
      | false ↦ backward height log_h i (rows + h)
    ]
  ]

pub forward : (ℕ → Run ℕ) → ℕ → ℕ → ℕ → ℕ → Run ℕ
forward height log_h zero end_ rows = value end_
forward height log_h (suc left) end_ rows = do
  h ← height end_
  elim (not (rows == 0) && ltb log_h (rows + h)) [
    | true ↦ value end_
    | false ↦ elim (leb log_h (rows + h)) [
      | true ↦ value (suc end_)
      | false ↦ forward height log_h left (suc end_) (rows + h)
    ]
  ]

pub item_height : LineCount → List Output → List ℕ → ℕ → View → ℕ → Run ℕ
item_height line_count events visible width view i = do
  event_index ← index visible i
  evt ← index events event_index
  event_height line_count evt width view

pub view_window : LineCount → List Output → List ℕ → ℕ → Bool → ℕ → ℕ → View → Run (ℕ × ℕ)
view_window line_count events visible scroll follow log_h width view =
    let n = length visible in
    let height = item_height line_count events visible width view in
    if n == 0
    then value (0, 0)
    else if follow
    then (backward height log_h n 0 >>= λ start. value (start, n))
    else forward height log_h (n - scroll) scroll 0 >>= λ end_. value (scroll, end_)

-- The loop of `draw` over the window: the lines of `&events[event_index]` for each index.
pub lines_at : View → List Output → List ℕ → Run (List (List Span))
lines_at view events [] = value []
lines_at view events (i ∷ indices) = do
  evt ← index events i
  lines ← event_lines evt view
  rest ← lines_at view events indices
  value (lines ++ rest)

module _ (ui : Ui) where
  abbrev pub view_of : App (Regex ui) → View
  view_of app = record { rich = app.rich; wrap = app.wrap }

  -- The bounds of the window, in `draw`.
  pub window_of : LineCount → ℕ → ℕ → App (Regex ui) → Run (ℕ × ℕ)
  window_of line_count log_h width app =
      if app.wrap || app.rich
      then view_window line_count app.events app.visible app.scroll app.follow log_h width
          (view_of app)
      else value (app.scroll, min (app.scroll + log_h) (length app.visible))

  -- The lines that `draw` renders.
  pub shown_lines : LineCount → ℕ → ℕ → App (Regex ui) → Run (List (List Span))
  shown_lines line_count log_h width app = do
    (start, end_) ← window_of line_count log_h width app
    indices ← slice app.visible start end_
    lines_at (view_of app) app.events indices

-- `with_commas`, on the digits: a comma stands before each digit that so many threes are to follow.
pub group : Text → Text
group [] = []
group (c ∷ t) = if length t % 3 == 0 && ltb 0 (length t) then c ∷ b',' ∷ group t else c ∷ group t

pub with_commas : ℕ → Text
with_commas n = group (show n)
