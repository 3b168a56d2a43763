-- ===== src/Stdout/Printed.antt =====
-- What is printed and what is recorded.
use tapgres.Prelude.{
  ℕ, suc, ◌≡◌, refl, sym, ap, ◌∙◌, inl, inr, none, some, List, [], ◌∷◌, ◌++◌, arith, if◌then◌else◌,
  length, length-append, append_assoc, append-nil, Bool-cases,
}
use tapgres.Event.{Text, Output, message, line, status}
use tapgres.Filter.{Engine, DisplayFilter}
use tapgres.Decode.{matches_filter}
use tapgres.Session.{Formats, from_output}
use tapgres.Session.Writer.{SessionWriter, Disk, appended}
use tapgres.Stdout.{Printer, after_write, recorded_by, recorded, printed, consume, consume_all}

-- The lines of an output on the standard output, and the lines of all that match.
abbrev pub line_of : Output → List Text
line_of (message m detail) = m.rendered ∷ []
line_of (line t) = t ∷ []
line_of (status t) = []

module _ (engine : Engine) (formats : Formats) (disk : Disk)
    (filter : DisplayFilter engine.Regex) where
  unfoldable pub lines_of : List Output → List Text
  lines_of [] = []
  lines_of (o ∷ outputs) =
      (if matches_filter engine filter o then line_of o else []) ++ lines_of outputs

  -- The lines of a file, from so many on.
  unfoldable pub encoded : ℕ → List Output → List Text
  encoded n [] = []
  encoded n (o ∷ outputs) =
      formats.encode (from_output formats (disk.now n) o) ∷ encoded (suc n) outputs

  printed-recorder :
      (o : Output) (p : Printer) → (printed engine formats disk filter o p).recorder ≡ p.recorder
  printed-recorder (message m detail) p = refl
  printed-recorder (line t) p = refl
  printed-recorder (status t) p = refl

  module _ (accepts : (w : SessionWriter) (t : Text) → disk.write_error w t ≡ none) where
    recorded-recorder :
        (o : Output) (p : Printer) (w : SessionWriter)
        → p.recorder ≡ some w
        → (recorded engine formats disk filter o p).recorder
          ≡ some (record w { lines = w.lines ++ encoded (length w.lines) (o ∷ []) })
    unfolding encoded
    recorded-recorder o p w e =
        ap (λ r. (recorded_by engine formats disk filter o p r).recorder) e
        ∙ ap
            (λ x.
              (after_write engine formats disk filter p w.path (
                appended w (formats.encode (from_output formats (disk.now (length w.lines)) o))
                  x)).recorder)
            (accepts w (formats.encode (from_output formats (disk.now (length w.lines)) o)))

    consume-recorder :
        (o : Output) (p : Printer) (w : SessionWriter)
        → p.recorder ≡ some w
        → (consume engine formats disk filter o p).recorder
          ≡ some (record w { lines = w.lines ++ encoded (length w.lines) (o ∷ []) })
    unfolding consume
    consume-recorder o p w e =
        let q = recorded engine formats disk filter o p in
        elim (Bool-cases (matches_filter engine filter o)) [
          | inl f ↦ rw f (printed-recorder o q ∙ recorded-recorder o p w e)
          | inr f ↦ rw f (recorded-recorder o p w e)
        ]

    -- While the file accepts what is written, the recorder has every output, those that the filter hides
    -- included, each as a line of its own, in order.
    pub consume_all-recorder :
        (outputs : List Output) (p : Printer) (w : SessionWriter)
        → p.recorder ≡ some w
        → (consume_all engine formats disk filter outputs p).recorder
          ≡ some (record w { lines = w.lines ++ encoded (length w.lines) outputs })
    unfolding consume_all encoded
    consume_all-recorder [] p w e =
        e ∙ ap (λ l. some (record w { lines = l })) (sym (append-nil w.lines))
    consume_all-recorder (o ∷ outputs) p w e =
        let t = formats.encode (from_output formats (disk.now (length w.lines)) o) in
        let v : SessionWriter = record w { lines = w.lines ++ t ∷ [] } in
        let n : length v.lines ≡ suc (length w.lines) =
          omega (arith, length-append w.lines (t ∷ [])) in
        consume_all-recorder outputs (consume engine formats disk filter o p) v
          (consume-recorder o p w e)
        ∙ ap (λ l. some (record w { lines = l }))
            (ap (λ k. v.lines ++ encoded k outputs) n
              ∙ append_assoc w.lines (t ∷ []) (encoded (suc (length w.lines)) outputs))
