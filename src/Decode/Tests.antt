-- ===== src/Decode/Tests.antt =====
-- Data rows at concrete bytes.
use tapgres.Prelude.{
  flatten, ◌≤◌, ◌≡◌, refl, none, some, List, [], ◌∷◌, ◌++◌, Option, arith, length,
}
use tapgres.Bytes.{Bytes}
use tapgres.Event.{FieldSummary}
use tapgres.Filter.{codes}
use tapgres.Decode.Messages.{parameter_text}
use tapgres.Decode.{quote, data_row_columns, hex_preview, hex_byte, hex_digit, all_bytes}
use tapgres.Decode.Rows.{encode_row, expected, data_row_columns-encode, data_row_columns-length}

abbrev fields : List (Option Bytes)
fields = some (b'4' ∷ b'2' ∷ []) ∷ none ∷ some (0 ∷ 255 ∷ []) ∷ []

abbrev desc : Option (List FieldSummary)
desc = some (record { name = codes "id"; type_oid = 23; format_code = 0 } ∷ [])

data_row_columns-encode_example :
    data_row_columns 3 (encode_row fields ++ 7 ∷ []) desc ≡ expected 0 desc fields
data_row_columns-encode_example =
    data_row_columns-encode fields (7 ∷ []) desc (omega arith)
      (omega arith, (tt, (omega arith, tt)))

data_row_columns-length_example : length (data_row_columns 2 (0 ∷ 0 ∷ []) desc) ≤ 2
data_row_columns-length_example = data_row_columns-length 2 (0 ∷ 0 ∷ []) desc

previewed : hex_preview (0 ∷ 171 ∷ []) ≡ codes "00ab"
unfolding hex_preview hex_byte hex_digit flatten
previewed = refl

-- A Bind without format codes has text parameters; they are shown in hex all the same.
bound_without_codes : parameter_text [] (some (b'4' ∷ b'2' ∷ [])) ≡ hex_preview (b'4' ∷ b'2' ∷ [])
unfolding parameter_text all_bytes
bound_without_codes = refl

bound_as_text : parameter_text (0 ∷ []) (some (b'4' ∷ b'2' ∷ [])) ≡ quote (b'4' ∷ b'2' ∷ [])
unfolding parameter_text all_bytes
bound_as_text = refl
