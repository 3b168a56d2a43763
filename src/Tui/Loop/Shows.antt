-- ===== src/Tui/Loop/Shows.antt =====
-- Each round leaves the state consistent, and draws within bounds.
use tapgres.Prelude.{ℕ, ◌≤◌, ◌≡◌, ◌∙◌, ap, false, List, [], ◌∷◌, arith}
use tapgres.Outcome.{value, Ensures, holds, Ensures-bind, Ensures-elim}
use tapgres.Outcome.Unless.{Unless, sound, Unless-if, Unless-elim, Unless-bind, Unless-weaken}
use tapgres.Event.{Output}
use tapgres.State.{Metrics}
use tapgres.Tui.{Ui, App, Regex}
use tapgres.Tui.Consistent.{
  Consistent, if-Consistent, push_output-Consistent, trim_history-Consistent,
  leave_splash-Consistent,
}
use tapgres.Tui.Keys.{KeyEvent}
use tapgres.Tui.Keys.Kept.{handle_key-Consistent}
use tapgres.Tui.View.{LineCount, view_of}
use tapgres.Tui.View.Shown.{ShowsMatching, shown_lines-ShowsMatching}
use tapgres.Tui.Rich.Drawable.{Undrawable, nothing}
use tapgres.Tui.Loop.{
  Round, log_height, receive, current, max_scroll, clamp_scroll, track_peaks, refresh, draw,
  handle_keys, app_loop,
}

module _ (ui : Ui) where
  receive-Consistent :
      (records : List Output) (app : App (Regex ui))
      → Consistent ui app
      → Consistent ui (receive ui records app)
  unfolding receive
  receive-Consistent [] app c = c
  receive-Consistent (o ∷ records) app c =
      receive-Consistent records _
        (if-Consistent ui app.accept_source_records (push_output-Consistent ui o app c) c)

  current-Consistent :
      (metrics : Metrics) (app : App (Regex ui))
      → Consistent ui app
      → Consistent ui (current ui metrics app)
  current-Consistent metrics app c =
      if-Consistent ui app.accept_source_records
        (record { listed = c.listed; bounded = c.bounded; in_force = c.in_force }) c

  -- Ready to be drawn: consistent, with a scroll position within the limit.
  pub record Ready (log_h : ℕ) (app : App (Regex ui)) : Type 0 where
    pub consistent : Consistent ui app
    pub scrolled : app.scroll ≤ max_scroll ui log_h app

  clamped-Ready :
      (log_h : ℕ) (app : App (Regex ui))
      → Consistent ui app
      → Ready log_h (track_peaks ui (clamp_scroll ui log_h app))
  unfolding clamp_scroll track_peaks
  clamped-Ready log_h app c = record {
    consistent = record { listed = c.listed; bounded = c.bounded; in_force = c.in_force };
    scrolled = omega arith;
  }

  pub refresh-Ready :
      (round : Round) (app : App (Regex ui))
      → Consistent ui app
      → Ready (log_height round.height) (refresh ui round app)
  unfolding refresh
  refresh-Ready round app c =
      let d =
        leave_splash-Consistent ui _
          (receive-Consistent round.records _ (current-Consistent round.metrics app c)) in
      clamped-Ready (log_height round.height) _ (trim_history-Consistent ui _ d.listed d.in_force)

  draw-ShowsMatching :
      (line_count : LineCount) (round : Round) (app : App (Regex ui))
      → Ready (log_height round.height) app
      → Unless
          (Undrawable ui app.filter app.events)
          (ShowsMatching ui app.filter (view_of ui app))
          (draw ui line_count round app)
  unfolding draw
  draw-ShowsMatching line_count round app r =
      Unless-if app.show_splash _ _ (λ _. sound (holds ([], tt, nothing)))
        (λ _. shown_lines-ShowsMatching ui line_count _ round.width app r.consistent r.scrolled)

  pub round-shows :
      (line_count : LineCount) (round : Round) (app : App (Regex ui))
      → Consistent ui app
      → let ready = refresh ui round app in
        Unless
          (Undrawable ui ready.filter ready.events)
          (ShowsMatching ui ready.filter (view_of ui ready))
          (draw ui line_count round ready)
  round-shows line_count round app c =
      draw-ShowsMatching line_count round (refresh ui round app) (refresh-Ready round app c)

  handle_keys-Consistent :
      (log_h : ℕ) (keys : List KeyEvent) (app : App (Regex ui))
      → Consistent ui app
      → Ensures (λ r. Consistent ui r.0) (handle_keys ui log_h keys app)
  unfolding handle_keys
  handle_keys-Consistent log_h [] app c = holds c
  handle_keys-Consistent log_h (key ∷ keys) app c =
      Ensures-bind _ _ (handle_key-Consistent ui log_h key app c) λ (done, quit) d.
        Ensures-elim quit _ _ (λ _. holds d) (λ _. handle_keys-Consistent log_h keys done d)

  -- A round of the loop meets an event that matches, with a character of more than a byte right behind a tag in its line.
  pub data MeetsUndrawable : List Round → App (Regex ui) → Type 0 where
    here :
        {round : Round} {rounds : List Round} {app : App (Regex ui)}
        → Undrawable ui (refresh ui round app).filter (refresh ui round app).events
        → MeetsUndrawable (round ∷ rounds) app
    later :
        {round : Round} {rounds : List Round} {app done : App (Regex ui)}
        → handle_keys ui (log_height round.height) round.keys (refresh ui round app)
          ≡ value (done, false)
        → MeetsUndrawable rounds done
        → MeetsUndrawable (round ∷ rounds) app

  -- The UI panics for one reason alone: from a consistent state, through any rounds with any records, keys,
  -- terminal sizes and files, the loop draws every frame, handles every key, and ends in a consistent state,
  -- unless a round meets an event that matches and has a character of more than a byte right behind a tag in its line.
  pub app_loop-Consistent :
      (line_count : LineCount) (rounds : List Round) (app : App (Regex ui))
      → Consistent ui app
      → Unless
          (MeetsUndrawable rounds app)
          (λ r. Consistent ui r.0)
          (app_loop ui line_count rounds app)
  unfolding app_loop
  app_loop-Consistent line_count [] app c = sound (holds c)
  app_loop-Consistent line_count (round ∷ rounds) app c =
      let ready = refresh-Ready round app c in
      Unless-bind _ _ (Unless-weaken (λ b. here b) (λ l s. s) (round-shows line_count round app c))
        λ frame _ _.
          Unless-bind _ _
            (sound (handle_keys-Consistent (log_height round.height) round.keys _ ready.consistent))
            λ (done, quit) e d.
              Unless-elim quit _ _ (λ _. sound (holds d))
                (λ more.
                  Unless-bind _ _
                    (Unless-weaken (λ b. later (e ∙ ap (λ q. value (done, q)) more) b) (λ l s. s)
                      (app_loop-Consistent line_count rounds done d))
                    λ (last, frames) _ l. sound (holds l))
