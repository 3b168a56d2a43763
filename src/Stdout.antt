-- ===== src/Stdout.antt =====
-- src/main.rs: `run_stdout`, the consumer of the outputs that prints and records them, and the
-- directory of the certificates.
pub mod Printed
mod Tests
use tapgres.Prelude.{
  ℕ, Bool, true, false, not, Option, none, some, List, [], ◌∷◌, ◌++◌, ◌⊎◌, inl, inr, if◌then◌else◌,
}
use tapgres.Event.{Text, Output, message, line, status}
use tapgres.Filter.{Engine, DisplayFilter, codes}
use tapgres.Decode.{matches_filter}
use tapgres.Session.{Formats, SessionError}
use tapgres.Session.Writer.{SessionWriter, Disk, show_error, create, write, flush}

-- What the consumer has: the lines printed, the recorder, and the error that stopped one.
pub record Printer : Type 0 where
  pub stdout : List Text
  pub stderr : List Text
  pub recorder : Option SessionWriter
  pub recorder_error : Option Text

abbrev pub printer : Option SessionWriter → Printer
printer recorder = record { stdout = []; stderr = []; recorder = recorder; recorder_error = none }

abbrev pub stopped : Text → SessionError → Text
stopped path e = codes "tapgres: recording stopped: " ++ show_error path e

module _ (engine : Engine) (formats : Formats) (disk : Disk)
    (filter : DisplayFilter engine.Regex) where
  abbrev pub after_write : Printer → Text → SessionError ⊎ SessionWriter → Printer
  after_write p path (inr w) = record p { recorder = some w }
  after_write p path (inl e) = record p {
    stderr = p.stderr ++ stopped path e ∷ [];
    recorder_error = some (stopped path e);
    recorder = none;
  }

  -- The recorder comes first, before the filter.
  abbrev pub recorded_by : Output → Printer → Option SessionWriter → Printer
  recorded_by output p none = p
  recorded_by output p (some w) = after_write p w.path (write formats disk output w)

  abbrev pub recorded : Output → Printer → Printer
  recorded output p = recorded_by output p p.recorder

  abbrev pub printed : Output → Printer → Printer
  printed (message m detail) p = record p { stdout = p.stdout ++ m.rendered ∷ [] }
  printed (line t) p = record p { stdout = p.stdout ++ t ∷ [] }
  printed (status t) p = record p { stderr = p.stderr ++ t ∷ [] }

  pub consume : Output → Printer → Printer
  consume output p =
      let q = recorded output p in
      if matches_filter engine filter output then printed output q else q

  -- `while let Ok(record) = rx.recv()`
  pub consume_all : List Output → Printer → Printer
  consume_all [] p = p
  consume_all (output ∷ outputs) p = consume_all outputs (consume output p)

  -- The end of the thread: a failed flush comes first, then the error that has stopped the recorder.
  pub finish : Printer → Option Text
  finish p = elim p.recorder [
    | none ↦ p.recorder_error
    | some w ↦ elim (flush disk w) [ none ↦ p.recorder_error | some e ↦ some (show_error w.path e) ]
  ]

  -- The rest of `run_stdout` behind the creation of the recorder: `outputs` are what the source delivers, and
  -- its error comes before the consumer's.
  abbrev pub run_with : List Output → Option Text → Option SessionWriter → Printer × Option Text
  run_with outputs source_error recorder =
      let p = consume_all outputs (printer recorder) in
      (p, elim source_error [ none ↦ finish p | some e ↦ some e ])

  pub run_stdout : Option Text → List Output → Option Text → Printer × Option Text
  run_stdout none outputs source_error = run_with outputs source_error none
  run_stdout (some path) outputs source_error = elim (create disk path) [
    | inl e ↦ (printer none, some (show_error path e))
    | inr w ↦ run_with outputs source_error (some w)
  ]

-- `default_tls_dir`, by the variables XDG_CONFIG_HOME and HOME; `join` is that of a path.
pub default_tls_dir : (Text → Text → Text) → Option Text → Option Text → Text
default_tls_dir join (some config) home = join config (codes "tapgres")
default_tls_dir join none (some home) = join (join home (codes ".config")) (codes "tapgres")
default_tls_dir join none none = codes ".tapgres"
