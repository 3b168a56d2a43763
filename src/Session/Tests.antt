-- ===== src/Session/Tests.antt =====
-- Session files at concrete outputs, with formats that keep the record itself.
use tapgres.Prelude.{◌≡◌, refl, true, false, none, some, List, [], ◌∷◌, ◌++◌, drop, ◌⊎◌, inl, inr}
use tapgres.Outcome.{value, ◌>>=◌}
use tapgres.Net.{v4}
use tapgres.Event.{Text, frontend_to_backend, Output, message, line}
use tapgres.Filter.{codes, text_eq}
use tapgres.Filter.Lexer.{is_whitespace}
use tapgres.Filter.Parser.{trim_start, trim_end}
use tapgres.Session.{Formats, stored_line, read_all, read_tail, from_output, is_blank}
use tapgres.Session.RoundTrip.{ReadsBack, written, read_all-written}
use tapgres.Session.Tail.{newest, read_tail-newest}

abbrev file : List (Text ⊎ Text)
file = inl (codes "a") ∷ inl (codes " ") ∷ inl (codes "b") ∷ inl (codes "c") ∷ []

-- A line is a record of that text.
abbrev plain : Formats
plain = record {
  Json = Text;
  timestamp_error = λ t. none;
  show_addr = λ a. [];
  parse_addr = λ t. inr t;
  debug = λ t. t;
  encode = λ r. elim r.payload [ stored_line t ↦ t | _ ↦ [] ];
  from_str = λ t. inl t;
  schema_version = λ t. some 1;
  from_value = λ t. inl (record { schema_version = 1; timestamp = []; payload = stored_line t });
}

read_tail-newest_example :
    read_tail plain file 2 ≡ (read_all plain file >>= λ outputs. value (newest 2 outputs))
read_tail-newest_example = read_tail-newest plain file 2

abbrev query : Output
query =
    message
      (record {
        timestamp = codes "2026-01-01T00:00:00.000Z";
        rendered = codes "Query";
        client = record { ip = v4 127 0 0 1; port = 40000 };
        direction = frontend_to_backend;
        kind = codes "Query";
        text = codes "select";
      })
      none

-- A message, and lines of one text at times of their own.
abbrev timed_lines : Formats
timed_lines = record {
  Json = Text × Output;
  timestamp_error = λ t. none;
  show_addr = λ a. [];
  parse_addr = λ t. inl (record { ip = v4 127 0 0 1; port = 40000 });
  debug = λ t. t;
  encode = λ r. elim r.payload [ stored_line t ↦ codes "l" ++ r.timestamp | _ ↦ codes "q" ];
  from_str = λ t. elim (text_eq t (codes "q")) [
    | true ↦ inl (codes "0", query)
    | false ↦ inl (drop 1 t, line (codes "begin"))
  ];
  schema_version = λ w. some 1;
  from_value = λ w. inl (from_output plain w.0 w.1);
}

abbrev timed : List (Text × Output)
timed =
    (codes "0", query) ∷ (codes "1", line (codes "begin")) ∷ (codes "2", line (codes "begin")) ∷ []

line_back :
    (now : Text)
    → is_blank timed_lines (codes "l" ++ now) ≡ false
    → ReadsBack timed_lines now (line (codes "begin"))
unfolding from_output text_eq
line_back now blank = record {
  timestamp = refl;
  address = tt;
  json = (now, line (codes "begin"));
  parses = refl;
  schema = refl;
  loads = refl;
  not_blank = blank;
}

read_all-written_example :
    read_all timed_lines (written timed_lines timed)
    ≡ value (query ∷ line (codes "begin") ∷ line (codes "begin") ∷ [])
unfolding from_output trim_start trim_end is_whitespace text_eq
read_all-written_example = read_all-written timed_lines timed (
  record {
    timestamp = refl;
    address = refl;
    json = (codes "0", query);
    parses = refl;
    schema = refl;
    loads = refl;
    not_blank = refl;
  },
  (line_back (codes "1") refl, (line_back (codes "2") refl, tt)),
)
