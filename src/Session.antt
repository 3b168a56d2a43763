-- ===== src/Session.antt =====
-- src/session.rs: session files. The time, JSON, time stamps and addresses as texts are other
-- projects' libraries, a parameter `Formats`; a file is its lines, some of which may fail to be read.
-- The path, the same in all errors of a run, is left out of them.
pub mod RoundTrip
pub mod Tail
pub mod Writer
pub mod Safety
mod Tests
use mathlib.Core.Option.{map as map_option}
use tapgres.Prelude.{
  ℕ, suc, ◌+◌, ◌-◌, ◌^◌, min, Bool, true, false, Option, none, some, List, [], ◌∷◌, ◌++◌, map, ◌⊎◌,
  inl, inr, ltb, ◌==◌, if◌then◌else◌, length, drop,
}
use tapgres.Outcome.{Outcome, value, error, ◌>>=◌, ◌>>◌}
use tapgres.Event.{
  Text, SocketAddr, MessageDirection, frontend_to_backend, backend_to_frontend, DisplayMessage,
  FieldSummary, DataColumn, EventDetail, row_description, data_row, Output, message, line, status,
}
use tapgres.Filter.{codes}
use tapgres.Filter.Parser.{trim_start, trim_end}

pub data StoredDirection : Type 0 where
  f2b b2f : StoredDirection

pub record StoredFieldSummary : Type 0 where
  pub name : Text
  pub type_oid : ℕ
  pub format_code : ℕ

pub record StoredDataColumn : Type 0 where
  pub name : Text
  pub type_oid : ℕ
  pub value : Text

pub data StoredDetail : Type 0 where
  stored_row_description : List StoredFieldSummary → StoredDetail
  stored_data_row : List StoredDataColumn → StoredDetail

pub record StoredMessage : Type 0 where
  pub direction : StoredDirection
  pub message_type : Text
  pub text : Text
  pub rendered : Text
  pub client : Text
  pub detail : Option StoredDetail

pub data StoredPayload : Type 0 where
  stored_message : StoredMessage → StoredPayload
  stored_line stored_status : Text → StoredPayload

pub record StoredRecord : Type 0 where
  pub schema_version : ℕ
  pub timestamp : Text
  pub payload : StoredPayload

abbrev pub current_schema : ℕ
current_schema = 1

-- What the libraries do: chrono's `parse_from_rfc3339` with the text of its error, the texts of
-- addresses, the text of a string under `{:?}`, and serde_json: a record as a line, a line as a value, a value's `schema_version` as
-- `as_u64`, and a value as a record.
pub record Formats : Type 1 where
  pub Json : Type 0
  pub timestamp_error : Text → Option Text
  pub show_addr : SocketAddr → Text
  pub parse_addr : Text → SocketAddr ⊎ Text
  pub debug : Text → Text
  pub encode : StoredRecord → Text
  pub from_str : Text → Json ⊎ Text
  pub schema_version : Json → Option ℕ
  pub from_value : Json → StoredRecord ⊎ Text

pub data SessionError : Type 0 where
  io_error : Text → SessionError
  invalid_record : ℕ → Text → SessionError
  unsupported_schema : ℕ → ℕ → SessionError
  encode_error : Text → SessionError

abbrev pub store_direction : MessageDirection → StoredDirection
store_direction frontend_to_backend = f2b
store_direction backend_to_frontend = b2f

abbrev pub load_direction : StoredDirection → MessageDirection
load_direction f2b = frontend_to_backend
load_direction b2f = backend_to_frontend

abbrev pub store_field : FieldSummary → StoredFieldSummary
store_field f = record { name = f.name; type_oid = f.type_oid; format_code = f.format_code }

abbrev pub load_field : StoredFieldSummary → FieldSummary
load_field f = record { name = f.name; type_oid = f.type_oid; format_code = f.format_code }

abbrev pub store_column : DataColumn → StoredDataColumn
store_column c = record { name = c.name; type_oid = c.type_oid; value = c.value }

abbrev pub load_column : StoredDataColumn → DataColumn
load_column c = record { name = c.name; type_oid = c.type_oid; value = c.value }

pub store_detail : EventDetail → StoredDetail
store_detail (row_description columns) = stored_row_description (map store_field columns)
store_detail (data_row columns) = stored_data_row (map store_column columns)

pub load_detail : StoredDetail → EventDetail
load_detail (stored_row_description columns) = row_description (map load_field columns)
load_detail (stored_data_row columns) = data_row (map load_column columns)

module _ (formats : Formats) where
  -- StoredRecord::from_output, at the time `now`.
  pub from_output : Text → Output → StoredRecord
  from_output now (message m detail) = record {
    schema_version = current_schema;
    timestamp = m.timestamp;
    payload = stored_message (record {
      direction = store_direction m.direction;
      message_type = m.kind;
      text = m.text;
      rendered = m.rendered;
      client = formats.show_addr m.client;
      detail = map_option store_detail detail;
    });
  }
  from_output now (line t) = record {
    schema_version = current_schema;
    timestamp = now;
    payload = stored_line t;
  }
  from_output now (status t) = record {
    schema_version = current_schema;
    timestamp = now;
    payload = stored_status t;
  }

  abbrev pub or_invalid : {A : Type 0} → ℕ → Text → A ⊎ Text → Outcome SessionError A
  or_invalid number prefix (inl a) = value a
  or_invalid number prefix (inr e) = error (invalid_record number (prefix ++ e))

  pub load_payload : ℕ → Text → StoredPayload → Outcome SessionError Output
  load_payload number timestamp (stored_line t) = value (line t)
  load_payload number timestamp (stored_status t) = value (status t)
  load_payload number timestamp (stored_message s) =
      or_invalid number (codes "invalid client address " ++ formats.debug s.client ++ codes ": ")
        (formats.parse_addr s.client)
      >>= λ client. value (
          message
            (record {
              timestamp = timestamp;
              rendered = s.rendered;
              client = client;
              direction = load_direction s.direction;
              kind = s.message_type;
              text = s.text;
            })
            (map_option load_detail s.detail))

  -- StoredRecord::into_output
  pub into_output : ℕ → StoredRecord → Outcome SessionError Output
  into_output number r = elim (formats.timestamp_error r.timestamp) [
    | none ↦ load_payload number r.timestamp r.payload
    | some e ↦ error (invalid_record number (codes "timestamp must be RFC 3339: " ++ e))
  ]

  abbrev pub as_u32 : Option ℕ → Option ℕ
  as_u32 none = none
  as_u32 (some n) = if ltb n (2 ^ 32) then some n else none

  abbrev pub check_schema : ℕ → Option ℕ → Outcome SessionError (Unit {0})
  check_schema number none =
      error (invalid_record number (codes "schema_version must be an unsigned 32-bit integer"))
  check_schema number (some found) =
      if found == current_schema then value tt else error (unsupported_schema number found)

  -- A line that is not blank, in `read_with`.
  pub read_line : ℕ → Text → Outcome SessionError Output
  read_line number t = do
    json ← or_invalid number [] (formats.from_str t)
    check_schema number (as_u32 (formats.schema_version json))
    stored ← or_invalid number [] (formats.from_value json)
    into_output number stored

  abbrev pub is_blank : Text → Bool
  is_blank t = elim (trim_end (trim_start t)) [ [] ↦ true | c ∷ u ↦ false ]

  -- The loop of `read_with`, with the consumer's state; lines are numbered from 1.
  pub read_with :
      {S : Type 0} → (Output → S → S) → ℕ → List (Text ⊎ Text) → S → Outcome SessionError S
  read_with consume index [] s = value s
  read_with consume index (inr e ∷ lines) s = error (io_error e)
  read_with consume index (inl t ∷ lines) s = elim (is_blank t) [
    | true ↦ read_with consume (suc index) lines s
    | false ↦
        read_line (suc index) t >>= λ output. read_with consume (suc index) lines (consume output s)
  ]

  abbrev pub push_back : Output → List Output → List Output
  push_back output outputs = outputs ++ output ∷ []

  pub read_all : List (Text ⊎ Text) → Outcome SessionError (List Output)
  read_all lines = read_with push_back 0 lines []

  -- `saturating_add(1)` on a `usize`.
  abbrev pub saturating_succ : ℕ → ℕ
  saturating_succ n = min (suc n) (2 ^ 64 - 1)

  -- The consumer of `read_tail`: what is retained, and how many were dropped.
  pub retain : ℕ → Output → List Output × ℕ → List Output × ℕ
  retain cap output (outputs, dropped) =
      if cap == 0
      then (outputs, saturating_succ dropped)
      else if length outputs == cap
      then (drop 1 outputs ++ output ∷ [], saturating_succ dropped)
      else (outputs ++ output ∷ [], dropped)

  pub read_tail : List (Text ⊎ Text) → ℕ → Outcome SessionError (List Output × ℕ)
  read_tail lines cap = read_with (retain cap) 0 lines ([], 0)
