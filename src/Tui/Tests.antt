-- ===== src/Tui/Tests.antt =====
-- The terminal UI at concrete rounds.
use tapgres.Prelude.{ℕ, refl, true, false, none, some, [], ◌∷◌, arith, inl, inr}
use tapgres.Outcome.{Ensures}
use tapgres.Outcome.Unless.{Unless}
use tapgres.Event.{Text, line, status}
use tapgres.Filter.{Engine, codes, has_substring}
use tapgres.Filter.Parser.{trim_start, trim_end}
use tapgres.Filter.Parser.Typed.{parse_filter-blank}
use tapgres.State.{default_metrics}
use tapgres.Session.{Formats, stored_line}
use tapgres.Session.Writer.{Disk}
use tapgres.Tui.{Ui, App, new, no_filter, matching}
use tapgres.Tui.Consistent.{Consistent}
use tapgres.Tui.Keys.{KeyEvent, char, enter, backspace, handle_key}
use tapgres.Tui.Keys.Kept.{handle_key-Consistent}
use tapgres.Tui.View.{LineCount}
use tapgres.Tui.Loop.{Round, app_loop}
use tapgres.Tui.Loop.Shows.{MeetsUndrawable, app_loop-Consistent}

abbrev literal : Engine
literal = record {
  Regex = Text;
  build = λ t. inl t;
  is_match = λ pattern_text t. has_substring pattern_text t;
  parse_ip_addr = λ t. none;
}

abbrev plain : Formats
plain = record {
  Json = Text;
  timestamp_error = λ t. none;
  show_addr = λ a. [];
  parse_addr = λ t. inr t;
  debug = λ t. t;
  encode = λ r. elim r.payload [ stored_line t ↦ t | _ ↦ [] ];
  from_str = λ t. inl t;
  schema_version = λ t. some 1;
  from_value = λ t. inl (record { schema_version = 1; timestamp = []; payload = stored_line t });
}

-- Nothing is refused, and every file has two lines.
abbrev disk : Disk
disk = record {
  create_error = λ path. none;
  write_error = λ w t. none;
  flush_error = λ w. none;
  contents = λ path. inr (inl (codes "a") ∷ inl (codes "b") ∷ []);
  now = λ n. codes "2026-01-01T00:00:00Z";
}

abbrev ui : Ui
ui = record { engine = literal; formats = plain; disk = disk }

abbrev start : App Text
start = new ui (codes "pcap") default_metrics false no_filter []

start-Consistent : Consistent ui start
unfolding new matching trim_start trim_end
start-Consistent = record {
  listed = refl;
  bounded = omega arith;
  in_force = λ e. parse_filter-blank literal [] refl;
}

abbrev key : ℕ → KeyEvent
key c = record { code = char c; ctrl = false }

abbrev one_row : LineCount
one_row lines width = 1

-- A display filter is edited, and then a session is opened.
abbrev round : Round
round = record {
  records = line (codes "begin") ∷ status (codes "ready") ∷ [];
  metrics = default_metrics;
  height = 24;
  width = 78;
  keys =
      key b'y'
      ∷ key b'x'
      ∷ record { code = backspace; ctrl = false }
      ∷ record { code = enter; ctrl = false }
      ∷ key b':'
      ∷ key b'o'
      ∷ [];
}

handle_key-Consistent_example : Ensures (λ r. Consistent ui r.0) (handle_key ui 14 (key b'y') start)
handle_key-Consistent_example = handle_key-Consistent ui 14 (key b'y') start start-Consistent

app_loop-Consistent_example :
    Unless
      (MeetsUndrawable ui (round ∷ round ∷ []) start)
      (λ r. Consistent ui r.0)
      (app_loop ui one_row (round ∷ round ∷ []) start)
app_loop-Consistent_example =
    app_loop-Consistent ui one_row (round ∷ round ∷ []) start start-Consistent

abbrev two : App Text
two = record start {
  events = line (codes "a") ∷ line (codes "b") ∷ [];
  visible = 0 ∷ 1 ∷ [];
  follow = true;
}
