-- ===== src/Session/RoundTrip.antt =====
-- What a session writer has written is read back.
use mathlib.Core.Option.{map as map_option}
use tapgres.Prelude.{
  ℕ, suc, ◌≡◌, refl, sym, ap, ◌∙◌, Bool, true, false, Option, none, some, List, [], ◌∷◌, ◌++◌,
  append_assoc, append-nil, map, ◌⊎◌, inl, All,
}
use tapgres.Outcome.{value, ◌>>=◌}
use tapgres.Event.{
  Text, MessageDirection, frontend_to_backend, backend_to_frontend, DisplayMessage, FieldSummary,
  DataColumn, EventDetail, row_description, data_row, Output, message, line, status,
}
use tapgres.Filter.{codes}
use tapgres.Session.{
  Formats, from_output, into_output, load_payload, store_detail, load_detail, store_direction,
  load_direction, store_field, load_field, store_column, load_column, read_with, read_line,
  read_all, push_back, is_blank, current_schema, or_invalid,
}

-- A client address that its text parses back to.
abbrev pub HasAddress : Formats → Output → Type 0
HasAddress formats (message m detail) =
    formats.parse_addr (formats.show_addr m.client) ≡ inl m.client
HasAddress formats _ = Unit

-- What the libraries are documented to do with a stored output: its time stamp is in RFC 3339, and
-- its address and its JSON are read back from their texts, which are not blank.
pub record ReadsBack (formats : Formats) (now : Text) (o : Output) : Type 0 where
  pub timestamp : formats.timestamp_error (from_output formats now o).timestamp ≡ none
  pub address : HasAddress formats o
  pub json : formats.Json
  pub parses : formats.from_str (formats.encode (from_output formats now o)) ≡ inl json
  pub schema : formats.schema_version json ≡ some (from_output formats now o).schema_version
  pub loads : formats.from_value json ≡ inl (from_output formats now o)
  pub not_blank : is_blank formats (formats.encode (from_output formats now o)) ≡ false

direction_back : (d : MessageDirection) → load_direction (store_direction d) ≡ d
direction_back frontend_to_backend = refl
direction_back backend_to_frontend = refl

fields_back : (l : List FieldSummary) → map load_field (map store_field l) ≡ l
fields_back [] = refl
fields_back (f ∷ l) = ap (λ r. f ∷ r) (fields_back l)

columns_back : (l : List DataColumn) → map load_column (map store_column l) ≡ l
columns_back [] = refl
columns_back (c ∷ l) = ap (λ r. c ∷ r) (columns_back l)

detail_back : (d : EventDetail) → load_detail (store_detail d) ≡ d
unfolding load_detail store_detail
detail_back (row_description l) = ap row_description (fields_back l)
detail_back (data_row l) = ap data_row (columns_back l)

details_back : (o : Option EventDetail) → map_option load_detail (map_option store_detail o) ≡ o
details_back none = refl
details_back (some d) = ap (λ e. some e) (detail_back d)

elim-false : {A : Type 0} (b : Bool) (x y : A) → b ≡ false → elim b [ true ↦ x | false ↦ y ] ≡ y
elim-false true x y e = cc
elim-false false x y e = refl

elim-none :
    {A B : Type 0} (o : Option A) (x : B) (f : A → B)
    → o ≡ none
    → elim o [ none ↦ x | some a ↦ f a ] ≡ x
elim-none none x f e = refl
elim-none (some a) x f e = cc

module _ (formats : Formats) (now : Text) where
  loaded :
      (number : ℕ) (m : DisplayMessage) (detail : Option EventDetail)
      → HasAddress formats (message m detail)
      → load_payload formats number m.timestamp (from_output formats now (message m detail)).payload
        ≡ value (message m detail)
  unfolding load_payload from_output
  loaded number m detail address =
      ap
        (λ r.
          or_invalid formats number
            (codes "invalid client address "
              ++ formats.debug (formats.show_addr m.client)
              ++ codes ": ")
            r
          >>= λ client. value (
              message
                (record {
                  timestamp = m.timestamp;
                  rendered = m.rendered;
                  client = client;
                  direction = load_direction (store_direction m.direction);
                  kind = m.kind;
                  text = m.text;
                })
                (map_option load_detail (map_option store_detail detail))))
        address
      ∙ rw (direction_back m.direction, details_back detail) refl

  into_output-from_output :
      (number : ℕ) (o : Output)
      → ReadsBack formats now o
      → into_output formats number (from_output formats now o) ≡ value o
  unfolding into_output from_output load_payload
  into_output-from_output number (message m detail) h =
      elim-none (formats.timestamp_error m.timestamp) _ _ h.timestamp
      ∙ loaded number m detail h.address
  into_output-from_output number (line t) h =
      elim-none (formats.timestamp_error now) _ _ h.timestamp
  into_output-from_output number (status t) h =
      elim-none (formats.timestamp_error now) _ _ h.timestamp

  schema_now : (o : Output) → (from_output formats now o).schema_version ≡ current_schema
  unfolding from_output
  schema_now (message m detail) = refl
  schema_now (line t) = refl
  schema_now (status t) = refl

  read_line-encode :
      (number : ℕ) (o : Output)
      → ReadsBack formats now o
      → read_line formats number (formats.encode (from_output formats now o)) ≡ value o
  unfolding read_line from_output into_output
  read_line-encode number o h =
      rw (h.parses)
        (rw (h.schema, schema_now o) (rw (h.loads) (into_output-from_output number o h)))

module _ (formats : Formats) where
  -- The line that `SessionWriter::write` adds at a time.
  abbrev pub written_line : Text × Output → Text
  written_line (now, o) = formats.encode (from_output formats now o)

  -- The lines of outputs that are written one after another, each at its own time.
  abbrev pub written : List (Text × Output) → List (Text ⊎ Text)
  written outputs = map (λ w. inl (written_line w)) outputs

  -- Each output is read back from what is written of it at its time.
  abbrev pub AllReadBack : List (Text × Output) → Type 0
  AllReadBack outputs = All (λ w. ReadsBack formats w.0 w.1) outputs

  read_with-written :
      (index : ℕ) (outputs : List (Text × Output)) (before : List Output)
      → AllReadBack outputs
      → read_with formats (push_back formats) index (written outputs) before
        ≡ value (before ++ map (λ w. w.1) outputs)
  unfolding read_with
  read_with-written index [] before h = ap (λ l. value l) (sym (append-nil before))
  read_with-written index ((now, o) ∷ outputs) before h =
      elim-false (is_blank formats (written_line (now, o))) _ _ h.0.not_blank
      ∙ ap
          (λ r. r >>= λ output.
            read_with formats (push_back formats) (suc index) (written outputs)
              (push_back formats output before))
          (read_line-encode formats now (suc index) o h.0)
      ∙ (read_with-written (suc index) outputs (before ++ o ∷ []) h.1
          ∙ ap (λ l. value l) (append_assoc before (o ∷ []) (map (λ w. w.1) outputs)))

  -- Where the libraries read back what they print of each output, and the time stamps are in RFC 3339,
  -- reading a file of outputs that were written, each at a time of its own, returns exactly those
  -- outputs, in order, with all their fields.
  pub read_all-written :
      (outputs : List (Text × Output))
      → AllReadBack outputs
      → read_all formats (written outputs) ≡ value (map (λ w. w.1) outputs)
  unfolding read_all
  read_all-written outputs h = read_with-written 0 outputs [] h
