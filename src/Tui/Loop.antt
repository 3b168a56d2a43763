-- ===== src/Tui/Loop.antt =====
-- src/tui.rs `app_loop`. A round of it takes in the records received, the metrics of the moment, the
-- terminal's height, the width of the message view, and the keys pressed.
pub mod Shows
use tapgres.Prelude.{
  ℕ, ◌+◌, ◌-◌, min, max, Bool, true, false, ◌&&◌, ◌||◌, Option, none, some, List, [], ◌∷◌, ◌++◌,
  if◌then◌else◌, length,
}
use tapgres.Outcome.{value, ◌>>=◌, ◌>>◌}
use tapgres.Event.{Output}
use tapgres.State.{Metrics, RateSample, summary}
use tapgres.Tui.{App, Ui, Run, Regex, push_output, trim_history, leave_splash_if_traffic}
use tapgres.Tui.Line.{Span}
use tapgres.Tui.Keys.{KeyEvent, handle_key}
use tapgres.Tui.View.{LineCount, shown_lines}

pub record Round : Type 0 where
  pub records : List Output
  pub metrics : Metrics
  pub height : ℕ
  pub width : ℕ
  pub keys : List KeyEvent

-- `rates.iter().map(..).max().unwrap_or(0)`
pub peak : (RateSample → ℕ) → List RateSample → ℕ
peak count [] = 0
peak count (r ∷ rates) = max (count r) (peak count rates)

abbrev pub log_height : ℕ → ℕ
log_height height = max (height - 10) 1

module _ (ui : Ui) where
  -- `while let Ok(record) = app.rx.try_recv()`
  pub receive : List Output → App (Regex ui) → App (Regex ui)
  receive [] app = app
  receive (output ∷ records) app =
      receive records (if app.accept_source_records then push_output ui output app else app)

  -- After `:open` the metrics are the session's own.
  abbrev pub current : Metrics → App (Regex ui) → App (Regex ui)
  current metrics app = if app.accept_source_records then record app { metrics = metrics } else app

  abbrev pub max_scroll : ℕ → App (Regex ui) → ℕ
  max_scroll log_h app =
      if app.wrap || app.rich then length app.visible - 1 else length app.visible - log_h

  pub clamp_scroll : ℕ → App (Regex ui) → App (Regex ui)
  clamp_scroll log_h app =
      let limit = max_scroll log_h app in
      record app { scroll = min (if app.follow then limit else app.scroll) limit }

  pub track_peaks : App (Regex ui) → App (Regex ui)
  track_peaks app =
      let rates = (summary app.metrics).rates in
      record app {
        peak_msgs_in = max app.peak_msgs_in (peak (λ r. r.msgs_in) rates);
        peak_msgs_out = max app.peak_msgs_out (peak (λ r. r.msgs_out) rates);
      }

  -- The round up to the drawing.
  pub refresh : Round → App (Regex ui) → App (Regex ui)
  refresh round app = track_peaks (
      clamp_scroll (log_height round.height) (
        trim_history ui
          (leave_splash_if_traffic ui (receive round.records (current round.metrics app)))))

  -- The lines of the message view; the splash has none.
  pub draw : LineCount → Round → App (Regex ui) → Run (List (List Span))
  draw line_count round app =
      if app.show_splash
      then value []
      else shown_lines ui line_count (log_height round.height) round.width app

  -- The keys of a round, to the one that quits.
  pub handle_keys : ℕ → List KeyEvent → App (Regex ui) → Run (App (Regex ui) × Bool)
  handle_keys log_h [] app = value (app, false)
  handle_keys log_h (key ∷ keys) app = do
    (done, quit) ← handle_key ui log_h key app
    elim quit [ true ↦ value (done, true) | false ↦ handle_keys log_h keys done ]

  -- The frames drawn are returned too.
  pub app_loop :
      LineCount → List Round → App (Regex ui) → Run (App (Regex ui) × List (List (List Span)))
  app_loop line_count [] app = value (app, [])
  app_loop line_count (round ∷ rounds) app = do
    frame ← draw line_count round (refresh round app)
    (done, quit) ← handle_keys (log_height round.height) round.keys (refresh round app)
    elim quit [
      | true ↦ value (done, frame ∷ [])
      | false ↦ app_loop line_count rounds done >>= λ (last, frames). value (last, frame ∷ frames)
    ]
