-- ===== src/Session/Writer.antt =====
-- src/session.rs: the texts of errors, `SessionWriter`, and the files. What the file system does is a
-- parameter `Disk`; a writer has the lines that it has written.
use tapgres.Prelude.{ℕ, Option, none, some, List, [], ◌∷◌, ◌++◌, ◌⊎◌, inl, inr, length}
use tapgres.Session
use tapgres.Outcome.{Outcome, error}
use tapgres.Event.{Text, Output}
use tapgres.Filter.{codes}
use tapgres.Decode.{show}
use tapgres.Session.{
  Formats, SessionError, io_error, invalid_record, unsupported_schema, encode_error, current_schema,
  from_output,
}

-- fmt::Display for SessionError; `path` is that of the run.
abbrev pub show_error : Text → SessionError → Text
show_error path (io_error e) = path ++ codes ": " ++ e
show_error path (invalid_record number message) =
    path ++ codes ": invalid JSONL record at line " ++ show number ++ codes ": " ++ message
show_error path (unsupported_schema number found) =
    path
    ++ codes ": unsupported schema version "
    ++ show found
    ++ codes " at line "
    ++ show number
    ++ codes " (supported: "
    ++ show current_schema
    ++ codes ")"
show_error path (encode_error e) = path ++ codes ": could not encode JSONL record: " ++ e

pub record SessionWriter : Type 0 where
  pub path : Text
  pub lines : List Text

-- What the file system and serde_json refuse, with the texts of their errors, what a file holds, and the times
-- at which lines are written.
pub record Disk : Type 0 where
  pub create_error : Text → Option Text
  pub write_error : SessionWriter → Text → Option SessionError
  pub flush_error : SessionWriter → Option Text
  pub contents : Text → Text ⊎ List (Text ⊎ Text)
  pub now : ℕ → Text

abbrev pub created : Text → Option Text → SessionError ⊎ SessionWriter
created path none = inr (record { path = path; lines = [] })
created path (some e) = inl (io_error e)

-- SessionWriter::create
abbrev pub create : Disk → Text → SessionError ⊎ SessionWriter
create disk path = created path (disk.create_error path)

abbrev pub appended : SessionWriter → Text → Option SessionError → SessionError ⊎ SessionWriter
appended w t none = inr (record w { lines = w.lines ++ t ∷ [] })
appended w t (some e) = inl e

-- SessionWriter::write
abbrev pub write : Formats → Disk → Output → SessionWriter → SessionError ⊎ SessionWriter
write formats disk output w =
    let t = formats.encode (from_output formats (disk.now (length w.lines)) output) in
    appended w t (disk.write_error w t)

-- SessionWriter::flush
abbrev pub flush : Disk → SessionWriter → Option SessionError
flush disk w = elim (disk.flush_error w) [ none ↦ none | some e ↦ some (io_error e) ]

-- `read_tail` of a path.
abbrev pub read_tail : Formats → Disk → Text → ℕ → Outcome SessionError (List Output × ℕ)
read_tail formats disk path limit = elim (disk.contents path) [
  | inl e ↦ error (io_error e)
  | inr lines ↦ tapgres.Session.read_tail formats lines limit
]
