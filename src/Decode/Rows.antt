-- ===== src/Decode/Rows.antt =====
-- Data rows, written as bytes and decoded.
use tapgres.Prelude.{
  ℕ, zero, suc, ◌/◌, ◌%◌, ◌^◌, ◌≤◌, ◌<◌, ◌≡◌, refl, ap, ◌∙◌, Bool, true, false, Option, none, some,
  List, [], ◌∷◌, ◌++◌, arith, ltb, leb, if◌then◌else◌, length, All, take-append_length,
  drop-append_length, length-append, append_assoc,
}
use tapgres.Bytes.{Bytes, be32}
use tapgres.Event.{FieldSummary, DataColumn}
use tapgres.Decode.{
  read_field, FieldRead, null_field, bytes_field, column, field_at, field_value, columns_from,
  data_row_columns,
}

-- A field as PostgreSQL sends it: NULL is the length -1, a value stands behind its length.
abbrev pub encode_field : Option Bytes → Bytes
encode_field none = 255 ∷ 255 ∷ 255 ∷ 255 ∷ []
encode_field (some b) =
    (length b / 2 ^ 24)
    ∷ (length b / 2 ^ 16 % 256)
    ∷ (length b / 2 ^ 8 % 256)
    ∷ (length b % 256)
    ∷ b

pub encode_row : List (Option Bytes) → Bytes
encode_row [] = []
encode_row (f ∷ fields) = encode_field f ++ encode_row fields

abbrev pub IsShort : Option Bytes → Type 0
IsShort none = Unit
IsShort (some b) = length b < 2 ^ 31

abbrev read_of : Option Bytes → FieldRead
read_of none = null_field
read_of (some b) = bytes_field b

-- The columns that a row should give, from field `i` on.
pub expected : ℕ → Option (List FieldSummary) → List (Option Bytes) → List DataColumn
expected i desc [] = []
expected i desc (f ∷ fields) =
    column (field_at desc i) (field_value (field_at desc i) (read_of f))
    ∷ expected (suc i) desc fields

read_field-encode :
    (f : Option Bytes) (rest : Bytes)
    → IsShort f
    → Path (FieldRead × Bool × Bytes) (read_field (encode_field f ++ rest)) (read_of f, true, rest)
unfolding read_field
read_field-encode none rest h = refl
read_field-encode (some b) rest h =
    let same : be32 (length b / 2 ^ 24) (length b / 2 ^ 16 % 256) (length b / 2 ^ 8 % 256)
          (length b % 256)
        ≡ length b =
      omega arith in
    let positive : leb (2 ^ 31) (length b) ≡ false = ground arith in
    let there : ltb (length (b ++ rest)) (length b) ≡ false =
      ground (arith, length-append b rest) in
    rw same (
      rw positive (
        rw there (
          rw (take-append_length b rest (length b) refl, drop-append_length b rest (length b) refl)
            refl)))

columns_from-encode :
    (i : ℕ) (desc : Option (List FieldSummary)) (fields : List (Option Bytes)) (behind : Bytes)
    → All IsShort fields
    → columns_from (length fields) i desc (encode_row fields ++ behind) ≡ expected i desc fields
unfolding columns_from expected encode_row
columns_from-encode i desc [] behind h = refl
columns_from-encode i desc (f ∷ fields) behind h =
    ap after (
      ap read_field (append_assoc (encode_field f) (encode_row fields) behind)
      ∙ read_field-encode f (encode_row fields ++ behind) h.0)
    ∙ ap (λ l. column (field_at desc i) (field_value (field_at desc i) (read_of f)) ∷ l)
        (columns_from-encode (suc i) desc fields behind h.1)
  where
    after : FieldRead × Bool × Bytes → List DataColumn
    after r =
        column (field_at desc i) (field_value (field_at desc i) r.0)
        ∷ (if r.1 then columns_from (length fields) (suc i) desc r.2 else [])

-- For every row below 2^15 fields, each value below 2^31 bytes, with or without a description and
-- whatever stands behind the row, decoding its bytes gives one column for each field, in order, under
-- the name and type of its description: NULL for a NULL, else the value's rendering.
pub data_row_columns-encode :
    (fields : List (Option Bytes)) (behind : Bytes) (desc : Option (List FieldSummary))
    → length fields < 2 ^ 15
    → All IsShort fields
    → data_row_columns (length fields) (encode_row fields ++ behind) desc ≡ expected 0 desc fields
unfolding data_row_columns
data_row_columns-encode fields behind desc few h =
    let positive : leb (2 ^ 15) (length fields) ≡ false = ground arith in
    rw positive (columns_from-encode 0 desc fields behind h)

columns_from-length :
    (left i : ℕ) (desc : Option (List FieldSummary)) (b : Bytes)
    → length (columns_from left i desc b) ≤ left
unfolding columns_from
columns_from-length zero i desc b = omega arith
columns_from-length (suc left) i desc b =
    ground (arith, columns_from-length left (suc i) desc (read_field b).2)

-- For any field count and payload, damaged ones too, decoding gives no more columns than fields, and
-- none when the count is negative.
pub data_row_columns-length :
    (field_count : ℕ) (payload : Bytes) (desc : Option (List FieldSummary))
    → length (data_row_columns field_count payload desc)
      ≤ (if leb (2 ^ 15) field_count then 0 else field_count)
unfolding data_row_columns
data_row_columns-length field_count payload desc = columns_from-length _ 0 desc payload
