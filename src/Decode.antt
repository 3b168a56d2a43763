-- ===== src/Decode.antt =====
-- src/decode.rs: the rendering of data rows and bytes, and the methods of `Output`. The messages
-- themselves are those of the pgwire crate; a row is its field count and its payload.
pub mod Rows
pub mod Messages
pub mod Emit
pub mod Drain
mod Tests
use tapgres.Prelude.{
  ℕ, zero, suc, ◌+◌, ◌-◌, ◌/◌, ◌%◌, ◌^◌, min, Bool, true, false, not, ◌&&◌, ◌||◌, Option, none,
  some, List, [], ◌∷◌, ◌++◌, map, ltb, leb, ◌==◌, if◌then◌else◌, length, get_elem?, take, drop,
  flatten,
}
use tapgres.Bytes.{Bytes, be32}
use tapgres.Event.{
  Text, FieldSummary, DataColumn, EventDetail, DisplayMessage, Output, message, line, status,
}
use tapgres.Filter.{codes, Engine, DisplayFilter, filter_matches}

pub all_bytes : (ℕ → Bool) → Bytes → Bool
all_bytes p [] = true
all_bytes p (c ∷ b) = p c && all_bytes p b

abbrev pub is_empty : Bytes → Bool
is_empty [] = true
is_empty (c ∷ b) = false

pub is_printable : Bytes → Bool
is_printable b =
    not (is_empty b) && all_bytes (λ c. (leb 32 c && ltb c 127) || c == b'\t' || c == b'\n') b

pub hex_digit : ℕ → ℕ
hex_digit n = if ltb n 10 then b'0' + n else b'a' + (n - 10)

-- `{:02x}`
pub hex_byte : ℕ → Text
hex_byte c = hex_digit (c / 16) ∷ hex_digit (c % 16) ∷ []

-- `{}` of a number; one more than the number is fuel enough for its digits.
pub decimal : ℕ → ℕ → Text
decimal zero n = []
decimal (suc fuel) n =
    let tens = decimal fuel (n / 10) in (if ltb n 10 then [] else tens) ++ (b'0' + n % 10) ∷ []

abbrev pub show : ℕ → Text
show n = decimal (suc n) n

-- U+2026 is the ellipsis.
pub hex_preview : Bytes → Text
hex_preview b =
    flatten (map hex_byte (take (min (length b) 48) b))
    ++ (if ltb 48 (length b) then 0x2026 ∷ codes " (" ++ show (length b) ++ codes " bytes)" else [])

-- What is printable is ASCII, which `from_utf8_lossy` keeps.
pub quote : Bytes → Text
quote b = if is_printable b then codes "'" ++ b ++ codes "'" else hex_preview b

pub format_bytes : Bytes → Text
format_bytes b = if is_printable b then b else hex_preview b

pub data FieldRead : Type 0 where
  null_field truncated : FieldRead
  bytes_field : Bytes → FieldRead

-- The length is an `i32`: from 2^31 on it is negative. It returns the payload that is left.
pub read_field : Bytes → FieldRead × Bool × Bytes
read_field (b0 ∷ b1 ∷ b2 ∷ b3 ∷ rest) =
    let len = be32 b0 b1 b2 b3 in
    if leb (2 ^ 31) len
    then (null_field, true, rest)
    else if ltb (length rest) len
    then (truncated, false, rest)
    else (bytes_field (take len rest), true, drop len rest)
read_field b = (truncated, false, b)

abbrev pub is_binary : Option FieldSummary → Bool
is_binary none = false
is_binary (some f) = f.format_code == 1

pub field_value : Option FieldSummary → FieldRead → Text
field_value f null_field = codes "NULL"
field_value f truncated = codes "<?>"
field_value f (bytes_field b) = if is_binary f then hex_preview b else quote b

pub column : Option FieldSummary → Text → DataColumn
column none v = record { name = codes "?"; type_oid = 0; value = v }
column (some f) v = record { name = f.name; type_oid = f.type_oid; value = v }

abbrev pub field_at : Option (List FieldSummary) → ℕ → Option FieldSummary
field_at none i = none
field_at (some desc) i = get_elem? desc i

-- The loop of `data_row_columns` from field `i` on, with the number of fields left.
pub columns_from : ℕ → ℕ → Option (List FieldSummary) → Bytes → List DataColumn
columns_from zero i desc b = []
columns_from (suc left) i desc b =
    let (read, more, rest) = read_field b in
    let others = columns_from left (suc i) desc rest in
    column (field_at desc i) (field_value (field_at desc i) read) ∷ (if more then others else [])

-- `field_count` is the bit pattern of an `i16`, and counts as 0 when it is negative.
pub data_row_columns : ℕ → Bytes → Option (List FieldSummary) → List DataColumn
data_row_columns field_count payload desc =
    columns_from (if leb (2 ^ 15) field_count then 0 else field_count) 0 desc payload

-- `join(", ")`
pub join : List Text → Text
join [] = []
join (t ∷ []) = t
join (t ∷ u ∷ l) = t ++ codes ", " ++ join (u ∷ l)

pub format_columns : List DataColumn → Bool → Text
format_columns cols labelled =
    if labelled
    then codes "{ " ++ join (map (λ c. c.name ++ codes "=" ++ c.value) cols) ++ codes " }"
    else codes "[" ++ join (map (λ c. c.value) cols) ++ codes "]"

abbrev pub format_code_name : ℕ → Text
format_code_name c = if c == 0 then codes "text" else if c == 1 then codes "binary" else codes "?"

pub format_row_desc : List FieldSummary → Text
format_row_desc fields = join (
    map
      (λ f.
        f.name
        ++ codes "(oid="
        ++ show f.type_oid
        ++ codes ", "
        ++ format_code_name f.format_code
        ++ codes ")")
      fields)

pub format_oids : List ℕ → Text
format_oids [] = codes "-"
format_oids (o ∷ oids) = join (map show (o ∷ oids))

pub format_format_codes : List ℕ → Text
format_format_codes l =
    if all_bytes (λ c. c == 0) l
    then codes "text"
    else if all_bytes (λ c. c == 1) l
    then codes "binary"
    else codes "["
      ++ join (map (λ c. if c == 1 then codes "binary" else codes "text") l)
      ++ codes "]"

-- `field`, of an error's fields.
pub error_field : List (ℕ × Text) → ℕ → Option Text
error_field [] ty = none
error_field ((k, v) ∷ fields) ty = if k == ty then some v else error_field fields ty

abbrev pub or_else : Option Text → Text → Text
or_else none t = t
or_else (some s) t = s

abbrev pub labelled_part : Text → Option Text → Text
labelled_part label none = []
labelled_part label (some t) = label ++ t

pub format_error_fields : List (ℕ × Text) → Text
format_error_fields fields =
    or_else (error_field fields b'S') (or_else (error_field fields b'V') (codes "ERROR"))
    ++ codes ": "
    ++ or_else (error_field fields b'M') []
    ++ codes " ["
    ++ or_else (error_field fields b'C') []
    ++ codes "]"
    ++ labelled_part (codes "  detail: ") (error_field fields b'D')
    ++ labelled_part (codes "  hint: ") (error_field fields b'H')

-- Output::rendered, Output::matches_filter and Output::detail.
pub rendered : Output → Text
rendered (message m detail) = m.rendered
rendered (line t) = t
rendered (status t) = t

unfoldable pub matches_filter : (engine : Engine) → DisplayFilter engine.Regex → Output → Bool
matches_filter engine filter (message m detail) = filter_matches engine filter m
matches_filter engine filter (line t) = true
matches_filter engine filter (status t) = true

pub detail_of : Output → Option EventDetail
detail_of (message m detail) = detail
detail_of (line t) = none
detail_of (status t) = none
