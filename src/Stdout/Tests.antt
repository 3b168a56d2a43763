-- ===== src/Stdout/Tests.antt =====
-- The consumer at three outputs, of which a filter hides none.
use tapgres.Prelude.{◌≡◌, ◌++◌, refl, none, some, List, [], ◌∷◌, inl, inr}
use tapgres.Event.{Text, Output, line, status}
use tapgres.Filter.{Engine, DisplayFilter, codes, has_substring}
use tapgres.Session.{Formats, stored_line}
use tapgres.Session.Writer.{Disk, SessionWriter}
use tapgres.Stdout.{printer, consume_all}
use tapgres.Stdout.Printed.{encoded, consume_all-recorder}

abbrev literal : Engine
literal = record {
  Regex = Text;
  build = λ t. inl t;
  is_match = λ pattern_text t. has_substring pattern_text t;
  parse_ip_addr = λ t. none;
}

abbrev plain : Formats
plain = record {
  Json = Text;
  timestamp_error = λ t. none;
  show_addr = λ a. [];
  parse_addr = λ t. inr t;
  debug = λ t. t;
  encode = λ r. elim r.payload [ stored_line t ↦ t | _ ↦ [] ];
  from_str = λ t. inl t;
  schema_version = λ t. some 1;
  from_value = λ t. inl (record { schema_version = 1; timestamp = []; payload = stored_line t });
}

abbrev disk : Disk
disk = record {
  create_error = λ path. none;
  write_error = λ w t. none;
  flush_error = λ w. none;
  contents = λ path. inr [];
  now = λ n. codes "2026-01-01T00:00:00Z";
}

abbrev every : DisplayFilter Text
every = record { expression = []; root = none }

abbrev outputs : List Output
outputs = line (codes "a") ∷ status (codes "b") ∷ line (codes "c") ∷ []

abbrev empty : SessionWriter
empty = record { path = codes "f"; lines = [] }

consume_all-recorder_example :
    (consume_all literal plain disk every outputs (printer (some empty))).recorder
    ≡ some (record empty { lines = [] ++ encoded literal plain disk every 0 outputs })
consume_all-recorder_example =
    consume_all-recorder literal plain disk every (λ w t. refl) outputs (printer (some empty)) empty
      refl
