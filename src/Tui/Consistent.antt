-- ===== src/Tui/Consistent.antt =====
-- The invariant of the terminal UI: `visible` has the matching events in order, the history is bounded, and the filter in
-- force is that of the text unless an error is shown.
use tapgres.Prelude.{
  ℕ, suc, ◌+◌, ◌-◌, ◌≤◌, ◌<◌, ◌≡◌, refl, sym, ap, ◌∙◌, inl, inr, ◌⊎◌, Bool, true, false, ◌&&◌,
  Option, none, some, List, [], ◌∷◌, ◌++◌, arith, ltb, leb, if◌then◌else◌, length, length-drop,
  Bool-cases,
}
use tapgres.Outcome.{
  Outcome, value, error, panic, out_of_fuel, Ensures, holds, failed, Ensures-bind, Ensures-value,
  Ensures-either,
}
use tapgres.Event.{Text, Output}
use tapgres.Filter.{DisplayFilter, FilterParseError}
use tapgres.Filter.Parser.{trim_start, trim_end, parse_filter}
use tapgres.Filter.Parser.Typed.{parse_filter-IsTyped, parse_filter-blank}
use tapgres.Decode.{matches_filter}
use tapgres.Session
use tapgres.Session.{SessionError, io_error}
use tapgres.Session.Writer.{create, write, SessionWriter}
use tapgres.Session.Safety.{read_tail-length}
use tapgres.State.{summary}
use tapgres.Tui.{
  Ui, App, Regex, history_cap, history_trim_chunk, no_filter, is_nil, trimmed, matching,
  rebuild_visible, trim_history, recorded, after_write, appended, push_output, filter_parsed,
  update_filter, clear_filter, Notice, start_recording, open_session, opened, replaced, flushed,
  dispatch, command_of, noticed, execute_command, leave_splash_if_traffic, started, filled,
  opening_notice,
}

is_nil→nil : {A : Type 0} (l : List A) → is_nil l ≡ true → l ≡ []
is_nil→nil [] e = refl
is_nil→nil (x ∷ l) e = cc

module _ (ui : Ui) where
  abbrev pub Listed : App (Regex ui) → Type 0
  Listed app = app.visible ≡ matching ui app.filter 0 app.events

  abbrev pub InForce : App (Regex ui) → Type 0
  InForce app = app.filter_error ≡ none → parse_filter ui.engine app.filter_text ≡ value app.filter

  pub record Consistent (app : App (Regex ui)) : Type 0 where
    pub listed : Listed app
    pub bounded : length app.events < history_cap + history_trim_chunk
    pub in_force : InForce app

  matching-append :
      (f : DisplayFilter (Regex ui)) (start : ℕ) (events : List Output) (output : Output)
      → matching ui f start (events ++ output ∷ []) ≡ (
          if matches_filter ui.engine f output
          then matching ui f start events ++ (start + length events) ∷ []
          else matching ui f start events)
  unfolding matching
  matching-append f start [] output = let e : start + 0 ≡ start = omega arith in rw e refl
  matching-append f start (x ∷ events) output =
      let e : start + suc (length events) ≡ suc start + length events = omega arith in
      rw e (elim (Bool-cases (matches_filter ui.engine f x)) [
        | inl a ↦ elim (Bool-cases (matches_filter ui.engine f output)) [
          | inl b ↦ simp (a, b, matching-append f (suc start) events output)
          | inr b ↦ simp (a, b, matching-append f (suc start) events output)
        ]
        | inr a ↦ elim (Bool-cases (matches_filter ui.engine f output)) [
          | inl b ↦ simp (a, b, matching-append f (suc start) events output)
          | inr b ↦ simp (a, b, matching-append f (suc start) events output)
        ]
      ])

  -- The empty text is that of the filter that matches everything.
  parse_empty : parse_filter ui.engine [] ≡ value no_filter
  unfolding trim_start trim_end
  parse_empty = parse_filter-blank ui.engine [] refl

  rebuild_visible-Consistent :
      (app : App (Regex ui))
      → length app.events < history_cap + history_trim_chunk
      → InForce app
      → Consistent (rebuild_visible ui app)
  unfolding rebuild_visible
  rebuild_visible-Consistent app h f = record { listed = refl; bounded = h; in_force = f }

  pub trim_history-Consistent :
      (app : App (Regex ui)) → Listed app → InForce app → Consistent (trim_history ui app)
  unfolding trim_history
  trim_history-Consistent app l f = elim (Bool-cases (leb (length app.events) history_cap)) [
    | inl e ↦ rw e (record { listed = l; bounded = ground (arith, e); in_force = f })
    | inr e ↦ rw e (
        rebuild_visible-Consistent _
          (ground (arith, e, length-drop (length app.events - history_cap) app.events)) f)
  ]

  appended-Listed :
      (output : Output) (app : App (Regex ui)) → Listed app → Listed (appended ui output app)
  appended-Listed output app l =
      let z : 0 + length app.events ≡ length app.events = omega arith in
      elim (Bool-cases (matches_filter ui.engine app.filter output)) [
        | inl e ↦ simp (e, l, matching-append app.filter 0 app.events output, z)
        | inr e ↦ simp (e, l, matching-append app.filter 0 app.events output, z)
      ]

  -- An operation that leaves alone what the invariant reads.
  pub record Untouched (a b : App (Regex ui)) : Type 0 where
    pub events : b.events ≡ a.events
    pub visible : b.visible ≡ a.visible
    pub filter : b.filter ≡ a.filter
    pub filter_text : b.filter_text ≡ a.filter_text
    pub filter_error : b.filter_error ≡ a.filter_error

  pub Untouched-Consistent : {a b : App (Regex ui)} → Untouched a b → Consistent a → Consistent b
  Untouched-Consistent {a} {b} u c = record {
    listed =
        u.visible
        ∙ c.listed
        ∙ ap (λ f. matching ui f 0 a.events) (sym u.filter)
        ∙ ap (λ l. matching ui b.filter 0 l) (sym u.events);
    bounded = omega (arith, c.bounded, ap length u.events);
    in_force = λ n.
        ap (λ t. parse_filter ui.engine t) u.filter_text
        ∙ c.in_force (sym u.filter_error ∙ n)
        ∙ ap (λ f. value f) (sym u.filter);
  }

  recorded-Untouched :
      (output : Output) (app : App (Regex ui)) → Untouched app (recorded ui output app)
  recorded-Untouched output app = go app.recorder
    where
      after :
          (r : SessionError ⊎ SessionWriter) (path : Text)
          → Untouched app (after_write ui app r path)
      after (inl e) path = record {
        events = refl;
        visible = refl;
        filter = refl;
        filter_text = refl;
        filter_error = refl;
      }
      after (inr w) path = record {
        events = refl;
        visible = refl;
        filter = refl;
        filter_text = refl;
        filter_error = refl;
      }

      go :
          (r : Option SessionWriter)
          → Untouched app (elim r [
            | none ↦ app
            | some w ↦ after_write ui app (write ui.formats ui.disk output w) w.path
          ])
      go none = record {
        events = refl;
        visible = refl;
        filter = refl;
        filter_text = refl;
        filter_error = refl;
      }
      go (some w) = after (write ui.formats ui.disk output w) w.path

  pub push_output-Consistent :
      (output : Output) (app : App (Regex ui))
      → Consistent app
      → Consistent (push_output ui output app)
  unfolding push_output
  push_output-Consistent output app c =
      let r = recorded ui output app in
      let d = Untouched-Consistent (recorded-Untouched output app) c in
      let pushed = appended ui output r in
      elim (Bool-cases (leb (history_cap + history_trim_chunk) (length pushed.events))) [
        | inl e ↦
            rw e (trim_history-Consistent pushed (appended-Listed output r d.listed) d.in_force)
        | inr e ↦ rw e (record {
          listed = appended-Listed output r d.listed;
          bounded = ground (arith, e);
          in_force = d.in_force;
        })
      ]

  pub clear_filter-Consistent :
      (app : App (Regex ui)) → Consistent app → Consistent (clear_filter ui app)
  unfolding clear_filter
  clear_filter-Consistent app c = rebuild_visible-Consistent _ c.bounded (λ _. parse_empty)

  -- An edit of the filter's text: the invariant holds after it, whatever the text is.
  pub update_filter-Consistent :
      (app : App (Regex ui))
      → Listed app
      → length app.events < history_cap + history_trim_chunk
      → Ensures Consistent (update_filter ui app)
  unfolding update_filter
  update_filter-Consistent app l h = elim (Bool-cases (is_nil (trimmed app.filter_text))) [
    | inl e ↦ rw e (
        holds (
          rebuild_visible-Consistent _ h (λ _.
            parse_filter-blank ui.engine app.filter_text (is_nil→nil (trimmed app.filter_text) e))))
    | inr e ↦ rw e (
        go (parse_filter ui.engine app.filter_text) refl
          (parse_filter-IsTyped ui.engine app.filter_text))
  ]
    where
      go :
          (r : Outcome FilterParseError (DisplayFilter (Regex ui)))
          {P : DisplayFilter (Regex ui) → Type 0}
          → parse_filter ui.engine app.filter_text ≡ r
          → Ensures P r
          → Ensures Consistent (filter_parsed ui app r)
      go (value f) e p = holds (rebuild_visible-Consistent _ h (λ _. e))
      go (error x) e p = holds (record { listed = l; bounded = h; in_force = λ n. cc })
      go panic e p = elim p [ ]
      go out_of_fuel e p = elim p [ ]

  pub if-Consistent :
      (b : Bool) {x y : App (Regex ui)}
      → Consistent x
      → Consistent y
      → Consistent (if b then x else y)
  if-Consistent true c d = c
  if-Consistent false c d = d

  -- Commands.
  start_recording-Untouched :
      (app : App (Regex ui)) (path : Text) → Untouched app (start_recording ui app path).0
  unfolding start_recording
  start_recording-Untouched app [] = record {
    events = refl;
    visible = refl;
    filter = refl;
    filter_text = refl;
    filter_error = refl;
  }
  start_recording-Untouched app (c ∷ path) = go (filled ui app (create ui.disk (c ∷ path)))
    where
      go : (r : SessionError ⊎ SessionWriter) → Untouched app (started ui app (c ∷ path) r).0
      go (inl e) = record {
        events = refl;
        visible = refl;
        filter = refl;
        filter_text = refl;
        filter_error = refl;
      }
      go (inr w) = record {
        events = refl;
        visible = refl;
        filter = refl;
        filter_text = refl;
        filter_error = refl;
      }

  replaced-Consistent :
      (app : App (Regex ui)) (outputs : List Output) (dropped : ℕ)
      → length outputs ≤ history_cap
      → InForce app
      → Consistent (replaced ui app outputs dropped)
  unfolding rebuild_visible
  replaced-Consistent app outputs dropped h f = record {
    listed = refl;
    bounded = omega (arith, h);
    in_force = f;
  }

  abbrev Kept : App (Regex ui) × Notice ui → Type 0
  Kept r = Consistent r.0

  opened-Consistent :
      (app : App (Regex ui)) (path : Text) (r : Outcome SessionError (List Output × ℕ))
      → Consistent app
      → Ensures (λ p. length p.0 ≤ history_cap) r
      → Ensures Kept (opened ui app path r)
  opened-Consistent app path (value (outputs, dropped)) c p =
      go (flushed ui app) (Ensures-value p refl)
    where
      go :
          (o : Option Text)
          → length outputs ≤ history_cap
          → Ensures {E = ⊥} Kept (elim o [
            | some e ↦ value (app, inr e)
            | none ↦ value (
              replaced ui app outputs dropped,
              inl (opening_notice ui (length outputs) dropped path),
            )
          ])
      go none h = holds (replaced-Consistent app outputs dropped h c.in_force)
      go (some e) h = holds c
  opened-Consistent app path (error e) c p = holds c
  opened-Consistent app path panic c p = elim p [ ]
  opened-Consistent app path out_of_fuel c p = elim p [ ]

  tail-length :
      (path : Text) (r : Text ⊎ List (Text ⊎ Text))
      → Ensures
          (λ p. length p.0 ≤ history_cap)
          (elim r [
            | inl e ↦ error (io_error e)
            | inr lines ↦ tapgres.Session.read_tail ui.formats lines history_cap
          ])
  tail-length path (inl e) = failed
  tail-length path (inr lines) = read_tail-length ui.formats lines history_cap

  open_session-Consistent :
      (app : App (Regex ui)) (path : Text)
      → Consistent app
      → Ensures Kept (open_session ui app path)
  unfolding open_session
  open_session-Consistent app [] c = holds c
  open_session-Consistent app (x ∷ path) c =
      opened-Consistent app (x ∷ path) _ c (tail-length (x ∷ path) (ui.disk.contents (x ∷ path)))

  dispatch-Consistent :
      (name argument : Text) (app : App (Regex ui))
      → Consistent app
      → Ensures Kept (dispatch ui name argument app)
  dispatch-Consistent name argument app c =
      Ensures-either _ _ _ (holds (Untouched-Consistent (start_recording-Untouched app argument) c))
        (Ensures-either _ _ _ (open_session-Consistent app argument c)
          (Ensures-either _ _ _ (holds c) (holds c)))

  noticed-Consistent :
      (app : App (Regex ui)) (n : Notice ui) → Consistent app → Consistent (noticed ui app n)
  noticed-Consistent app (inl m) c = record {
    listed = c.listed;
    bounded = c.bounded;
    in_force = c.in_force;
  }
  noticed-Consistent app (inr m) c = record {
    listed = c.listed;
    bounded = c.bounded;
    in_force = c.in_force;
  }

  -- A command, whatever its text and whatever the files hold, keeps the invariant.
  pub execute_command-Consistent :
      (app : App (Regex ui)) → Consistent app → Ensures Consistent (execute_command ui app)
  unfolding execute_command
  execute_command-Consistent app c =
      Ensures-bind _ _
        (dispatch-Consistent (command_of ui app.command_text).0 (command_of ui app.command_text).1
          app c)
        λ (done, notice) k. holds (noticed-Consistent done notice k)

  pub leave_splash-Consistent :
      (app : App (Regex ui)) → Consistent app → Consistent (leave_splash_if_traffic ui app)
  unfolding leave_splash_if_traffic
  leave_splash-Consistent app c =
      if-Consistent (app.show_splash && ltb 0 (summary app.metrics).conns_opened)
        (record { listed = c.listed; bounded = c.bounded; in_force = c.in_force }) c
