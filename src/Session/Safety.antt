-- ===== src/Session/Safety.antt =====
-- The consumer's invariant holds of what reading a session returns.
use tapgres.Prelude.{
  ℕ, suc, ◌≤◌, Option, none, some, List, [], ◌∷◌, ◌++◌, ◌⊎◌, inl, inr, arith, ◌==◌, length, drop,
  length-append, length-drop,
}
use tapgres.Outcome.{
  Outcome, Ensures, holds, failed, Ensures-bind, Ensures-elim, Ensures-if, Ensures-option,
}
use tapgres.Event.{Text, Output}
use tapgres.Filter.{codes}
use tapgres.Session.{
  Formats, SessionError, StoredPayload, StoredRecord, stored_line, stored_status, stored_message,
  or_invalid, load_payload, into_output, as_u32, check_schema, current_schema, read_line, is_blank,
  read_with, retain, read_tail,
}

abbrev Returns : {A : Type 0} → Outcome SessionError A → Type 0
Returns r = Ensures (λ a. Unit {0}) r

module _ (formats : Formats) where
  or_invalid-Returns :
      {A : Type 0} (number : ℕ) (prefix : Text) (r : A ⊎ Text)
      → Returns (or_invalid formats number prefix r)
  or_invalid-Returns number prefix (inl a) = holds tt
  or_invalid-Returns number prefix (inr e) = failed

  load_payload-Returns :
      (number : ℕ) (timestamp : Text) (p : StoredPayload)
      → Returns (load_payload formats number timestamp p)
  unfolding load_payload
  load_payload-Returns number timestamp (stored_line t) = holds tt
  load_payload-Returns number timestamp (stored_status t) = holds tt
  load_payload-Returns number timestamp (stored_message s) =
      Ensures-bind
        (or_invalid formats number
          (codes "invalid client address " ++ formats.debug s.client ++ codes ": ")
          (formats.parse_addr s.client))
        _
        (or_invalid-Returns number
          (codes "invalid client address " ++ formats.debug s.client ++ codes ": ")
          (formats.parse_addr s.client))
        λ client _. holds tt

  into_output-Returns : (number : ℕ) (r : StoredRecord) → Returns (into_output formats number r)
  unfolding into_output
  into_output-Returns number r =
      Ensures-option (formats.timestamp_error r.timestamp) _ _
        (λ _. load_payload-Returns number r.timestamp r.payload) (λ e _. failed)

  check_schema-Returns :
      (number : ℕ) (found : Option ℕ) → Returns (check_schema formats number found)
  check_schema-Returns number none = failed
  check_schema-Returns number (some found) =
      Ensures-if (found == current_schema) _ _ (λ _. holds tt) (λ _. failed)

  read_line-Returns : (number : ℕ) (t : Text) → Returns (read_line formats number t)
  unfolding read_line
  read_line-Returns number t =
      Ensures-bind _ _ (or_invalid-Returns number [] (formats.from_str t)) λ json _.
        Ensures-bind _ _
          (check_schema-Returns number (as_u32 formats (formats.schema_version json)))
          λ _ _.
            Ensures-bind _ _ (or_invalid-Returns number [] (formats.from_value json))
              λ stored _. into_output-Returns number stored

  pub read_with-Ensures :
      {S : Type 0} (P : S → Type 0) (consume : Output → S → S)
      → ((o : Output) (s : S) → P s → P (consume o s))
      → (index : ℕ) (lines : List (Text ⊎ Text)) (s : S) → P s
      → Ensures P (read_with formats consume index lines s)
  unfolding read_with
  read_with-Ensures P consume keeps index [] s p = holds p
  read_with-Ensures P consume keeps index (inr e ∷ lines) s p = failed
  read_with-Ensures P consume keeps index (inl t ∷ lines) s p =
      Ensures-elim (is_blank formats t) _ _
        (λ _. read_with-Ensures P consume keeps (suc index) lines s p)
        λ _.
          Ensures-bind _ _ (read_line-Returns (suc index) t)
            λ o _. read_with-Ensures P consume keeps (suc index) lines (consume o s) (keeps o s p)

  retain-le :
      (cap : ℕ) (o : Output) (s : List Output × ℕ)
      → length s.0 ≤ cap
      → length (retain formats cap o s).0 ≤ cap
  unfolding retain
  retain-le cap o (outputs, dropped) h = ground (
    arith,
    h,
    length-append (drop 1 outputs) (o ∷ []),
    length-append outputs (o ∷ []),
    length-drop 1 outputs,
  )

  pub read_tail-length :
      (lines : List (Text ⊎ Text)) (cap : ℕ)
      → Ensures (λ r. length r.0 ≤ cap) (read_tail formats lines cap)
  unfolding read_tail
  read_tail-length lines cap =
      read_with-Ensures (λ r. length r.0 ≤ cap) (retain formats cap) (retain-le cap) 0 lines ([], 0)
        (omega arith)
