-- ===== src/Tui.antt =====
-- src/tui.rs: the state of the terminal UI and its operations. The source channel is the records that the loop takes from
-- it, and the metrics are those of the moment.
pub mod Keys
pub mod View
pub mod Line
pub mod Rich
pub mod Loop
pub mod Consistent
mod Tests
use tapgres.Prelude.{
  ℕ, zero, suc, ◌+◌, ◌-◌, ◌^◌, min, max, Bool, true, false, not, ◌&&◌, ◌||◌, Option, none, some,
  List, [], ◌∷◌, ◌++◌, ◌⊎◌, inl, inr, ltb, leb, ◌==◌, if◌then◌else◌, length, drop,
}
use tapgres.Outcome.{Outcome, value, error, panic, out_of_fuel, ◌>>=◌, ◌>>◌}
use tapgres.Event.{Text, Output}
use tapgres.Filter.{Engine, DisplayFilter, FilterParseError, codes, text_eq}
use tapgres.Filter.Lexer.{is_whitespace}
use tapgres.Filter.Parser.{trim_start, trim_end, parse_filter}
use tapgres.Decode.{show, matches_filter}
use tapgres.State.{Metrics, default_metrics, summary}
use tapgres.Session.{Formats, SessionError}
use tapgres.Session.Writer.{SessionWriter, Disk, show_error, create, write, flush, read_tail}

abbrev pub history_cap : ℕ
history_cap = 50000

abbrev pub history_trim_chunk : ℕ
history_trim_chunk = 1024

-- The regexes, the formats and the files.
pub record Ui : Type 1 where
  pub engine : Engine
  pub formats : Formats
  pub disk : Disk

pub record App (Regex : Type 0) : Type 0 where
  pub events : List Output
  pub visible : List ℕ
  pub scroll : ℕ
  pub follow : Bool
  pub wrap : Bool
  pub rich : Bool
  pub mode : Text
  pub metrics : Metrics
  pub peak_msgs_in : ℕ
  pub peak_msgs_out : ℕ
  pub filter : DisplayFilter Regex
  pub filter_text : Text
  pub filter_error : Option Text
  pub filter_editing : Bool
  pub command_editing : Bool
  pub command_text : Text
  pub command_notice : Option (Text × Bool)
  pub accept_source_records : Bool
  pub dropped_events : ℕ
  pub splash_lines : List Text
  pub show_splash : Bool
  pub recorder : Option SessionWriter

-- A run that returns no error: its failures are a panic and a lack of fuel.
abbrev pub Run : Type 0 → Type 0
Run A = Outcome ⊥ A

-- `saturating_add` on a `usize`.
abbrev pub saturating_add : ℕ → ℕ → ℕ
saturating_add a b = min (a + b) (2 ^ 64 - 1)

-- DisplayFilter::default and is_empty
abbrev pub no_filter : {Regex : Type 0} → DisplayFilter Regex
no_filter = record { expression = []; root = none }

abbrev pub is_empty : {Regex : Type 0} → DisplayFilter Regex → Bool
is_empty f = elim f.root [ none ↦ true | some e ↦ false ]

abbrev pub is_nil : {A : Type 0} → List A → Bool
is_nil [] = true
is_nil (_ ∷ _) = false

-- fmt::Display for FilterParseError
abbrev pub show_parse_error : FilterParseError → Text
show_parse_error e = e.message ++ codes " at byte " ++ show e.position

-- The first character after `:` and `/` are stripped, and the split at a white space.
pub strip_prompt : Text → Text
strip_prompt [] = []
strip_prompt (c ∷ t) = let rest = strip_prompt t in if c == b':' || c == b'/' then rest else c ∷ t

pub split_once_whitespace : Text → Option (Text × Text)
split_once_whitespace [] = none
split_once_whitespace (c ∷ t) =
    let rest = split_once_whitespace t in
    if is_whitespace c
    then some ([], t)
    else elim rest [ none ↦ none | some p ↦ some (c ∷ p.0, p.1) ]

abbrev pub trimmed : Text → Text
trimmed t = trim_end (trim_start t)

module _ (ui : Ui) where
  abbrev pub Regex : Type 0
  Regex = ui.engine.Regex

  -- App::new
  pub new : Text → Metrics → Bool → DisplayFilter Regex → List Text → App Regex
  new mode metrics rich filter splash_lines = record {
    events = [];
    visible = [];
    scroll = 0;
    follow = true;
    wrap = false;
    rich = rich;
    mode = mode;
    metrics = metrics;
    peak_msgs_in = 0;
    peak_msgs_out = 0;
    filter = filter;
    filter_text = filter.expression;
    filter_error = none;
    filter_editing = false;
    command_editing = false;
    command_text = [];
    command_notice = none;
    accept_source_records = true;
    dropped_events = 0;
    splash_lines = splash_lines;
    show_splash = not (is_nil splash_lines);
    recorder = none;
  }

  abbrev pub matches : App Regex → Output → Bool
  matches app output = matches_filter ui.engine app.filter output

  -- The iterator of `rebuild_visible`.
  unfoldable pub matching : DisplayFilter Regex → ℕ → List Output → List ℕ
  matching filter index [] = []
  matching filter index (output ∷ events) =
      let rest = matching filter (suc index) events in
      if matches_filter ui.engine filter output then index ∷ rest else rest

  pub rebuild_visible : App Regex → App Regex
  rebuild_visible app = record app { visible = matching app.filter 0 app.events; scroll = 0 }

  pub trim_history : App Regex → App Regex
  trim_history app =
      let drop_n = length app.events - history_cap in
      if leb (length app.events) history_cap
      then app
      else rebuild_visible (record app {
        events = drop drop_n app.events;
        dropped_events = saturating_add app.dropped_events drop_n;
      })

  abbrev pub after_write : App Regex → SessionError ⊎ SessionWriter → Text → App Regex
  after_write app (inr w) path = record app { recorder = some w }
  after_write app (inl e) path = record app {
    recorder = none;
    command_notice = some (codes "recording stopped: " ++ show_error path e, true);
  }

  -- The recorder gets the output first.
  abbrev pub recorded : Output → App Regex → App Regex
  recorded output app = elim app.recorder [
    | none ↦ app
    | some w ↦ after_write app (write ui.formats ui.disk output w) w.path
  ]

  abbrev pub appended : Output → App Regex → App Regex
  appended output app = record app {
    visible = if matches app output then app.visible ++ length app.events ∷ [] else app.visible;
    events = app.events ++ output ∷ [];
  }

  pub push_output : Output → App Regex → App Regex
  push_output output app =
      let pushed = appended output (recorded output app) in
      if leb (history_cap + history_trim_chunk) (length pushed.events)
      then trim_history pushed
      else pushed

  abbrev pub filter_parsed :
      App Regex → Outcome FilterParseError (DisplayFilter Regex) → Run (App Regex)
  filter_parsed app (value filter) =
      value (rebuild_visible (record app { filter = filter; filter_error = none }))
  filter_parsed app (error e) = value (record app { filter_error = some (show_parse_error e) })
  filter_parsed app panic = panic
  filter_parsed app out_of_fuel = out_of_fuel

  pub update_filter : App Regex → Run (App Regex)
  update_filter app =
      if is_nil (trimmed app.filter_text)
      then value (rebuild_visible (record app { filter = no_filter; filter_error = none }))
      else filter_parsed app (parse_filter ui.engine app.filter_text)

  pub clear_filter : App Regex → App Regex
  clear_filter app =
      rebuild_visible (record app { filter_text = []; filter = no_filter; filter_error = none })

  -- The loop of `start_recording`, and its flush.
  pub write_all : List Output → SessionWriter → SessionError ⊎ SessionWriter
  write_all [] w = elim (flush ui.disk w) [ none ↦ inr w | some e ↦ inl e ]
  write_all (output ∷ events) w = elim (write ui.formats ui.disk output w) [
    | inl e ↦ inl e
    | inr v ↦ write_all events v
  ]

  -- A message, or an error.
  abbrev pub Notice : Type 0
  Notice = Text ⊎ Text

  abbrev pub recording_notice : App Regex → Text → Text
  recording_notice app path =
      let retained = show (length app.events) in
      let action =
        if app.accept_source_records
        then codes "recording " ++ retained ++ codes " retained events + future traffic"
        else codes "saved " ++ retained ++ codes " retained replay events" in
      if app.dropped_events == 0
      then action ++ codes " to " ++ path
      else action
        ++ codes " to "
        ++ path
        ++ codes "; "
        ++ show app.dropped_events
        ++ codes " earlier events were outside history"

  abbrev pub started : App Regex → Text → SessionError ⊎ SessionWriter → App Regex × Notice
  started app path (inl e) = (app, inr (show_error path e))
  started app path (inr w) = (record app { recorder = some w }, inl (recording_notice app path))

  abbrev pub filled : App Regex → SessionError ⊎ SessionWriter → SessionError ⊎ SessionWriter
  filled app (inl e) = inl e
  filled app (inr w) = write_all app.events w

  pub start_recording : App Regex → Text → App Regex × Notice
  start_recording app [] = (app, inr (codes "usage: :save FILE"))
  start_recording app (c ∷ path) = started app (c ∷ path) (filled app (create ui.disk (c ∷ path)))

  abbrev pub opening_notice : ℕ → ℕ → Text → Text
  opening_notice count dropped path =
      if dropped == 0
      then codes "opened " ++ show count ++ codes " events from " ++ path
      else codes "opened newest "
        ++ show count
        ++ codes " events from "
        ++ path
        ++ codes "; "
        ++ show dropped
        ++ codes " earlier events are outside history"

  -- The replay takes the place of the live view.
  abbrev pub replaced : App Regex → List Output → ℕ → App Regex
  replaced app outputs dropped =
      record (rebuild_visible (record app { recorder = none; events = outputs; visible = [] })) {
        follow = true;
        mode = codes "replay";
        metrics = default_metrics;
        peak_msgs_in = 0;
        peak_msgs_out = 0;
        show_splash = false;
        accept_source_records = false;
        dropped_events = dropped;
      }

  abbrev pub flushed : App Regex → Option Text
  flushed app = elim app.recorder [
    | none ↦ none
    | some w ↦ elim (flush ui.disk w) [ none ↦ none | some e ↦ some (show_error w.path e) ]
  ]

  abbrev pub opened :
      App Regex → Text → Outcome SessionError (List Output × ℕ) → Run (App Regex × Notice)
  opened app path (value (outputs, dropped)) = elim (flushed app) [
    | some e ↦ value (app, inr e)
    | none ↦
        value (replaced app outputs dropped, inl (opening_notice (length outputs) dropped path))
  ]
  opened app path (error e) = value (app, inr (show_error path e))
  opened app path panic = panic
  opened app path out_of_fuel = out_of_fuel

  pub open_session : App Regex → Text → Run (App Regex × Notice)
  open_session app [] = value (app, inr (codes "usage: :open FILE"))
  open_session app (c ∷ path) =
      opened app (c ∷ path) (read_tail ui.formats ui.disk (c ∷ path) history_cap)

  -- The name of a command and its argument.
  abbrev pub command_of : Text → Text × Text
  command_of text =
      let input = trimmed (strip_prompt (trimmed text)) in
      elim (split_once_whitespace input) [
        | none ↦ (input, [])
        | some (name, argument) ↦ (name, trimmed argument)
      ]

  abbrev pub dispatch : Text → Text → App Regex → Run (App Regex × Notice)
  dispatch name argument app =
      if text_eq name (codes "w") || text_eq name (codes "write") || text_eq name (codes "save")
      then value (start_recording app argument)
      else if text_eq name (codes "o") || text_eq name (codes "open")
      then open_session app argument
      else if is_nil name
      then value (app, inr (codes "command is empty"))
      else value (app, inr (codes "unknown command: " ++ name))

  abbrev pub noticed : App Regex → Notice → App Regex
  noticed app (inl message) = record app {
    command_notice = some (message, false);
    command_editing = false;
  }
  noticed app (inr message) = record app {
    command_notice = some (message, true);
    command_editing = false;
  }

  pub execute_command : App Regex → Run (App Regex)
  execute_command app = do
    (done, notice) ← dispatch (command_of app.command_text).0 (command_of app.command_text).1 app
    value (noticed done notice)

  pub leave_splash_if_traffic : App Regex → App Regex
  leave_splash_if_traffic app =
      if app.show_splash && ltb 0 (summary app.metrics).conns_opened
      then record app { show_splash = false }
      else app
