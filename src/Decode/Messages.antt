-- ===== src/Decode/Messages.antt =====
-- The messages of the pgwire crate, with the fields that src/decode.rs reads, and the text that the
-- program shows of each. Signed numbers are their bit patterns.
use tapgres.Prelude.{
  ℕ, ◌-◌, ◌^◌, ◌||◌, Option, none, some, List, [], ◌∷◌, ◌++◌, map, ltb, ◌==◌, if◌then◌else◌, length,
}
use tapgres.Bytes.{Bytes}
use tapgres.Event.{Text, FieldSummary}
use tapgres.Filter.{codes}
use tapgres.Utf8.{utf8_len}
use tapgres.Decode.{
  show, join, all_bytes, hex_preview, quote, is_printable, format_oids, format_format_codes,
  or_else,
}

pub record Bind : Type 0 where
  pub portal_name : Option Text
  pub statement_name : Option Text
  pub parameter_format_codes : List ℕ
  pub parameters : List (Option Bytes)
  pub result_column_format_codes : List ℕ

pub data PasswordMessageFamily : Type 0 where
  password : Text → PasswordMessageFamily
  sasl_initial_response : Text → Option Bytes → PasswordMessageFamily
  sasl_response raw_password : Bytes → PasswordMessageFamily
  other_password : PasswordMessageFamily

-- PgWireFrontendMessage, with the three kinds of SslNegotiation as messages of their own.
pub data FrontendMessage : Type 0 where
  negotiation_none postgres_ssl postgres_gss : FrontendMessage
  startup : ℕ → ℕ → List (Text × Text) → FrontendMessage
  cancel_request : FrontendMessage
  query : Text → FrontendMessage
  parse : Option Text → List ℕ → Text → FrontendMessage
  bind : Bind → FrontendMessage
  describe : ℕ → Option Text → FrontendMessage
  execute : Option Text → ℕ → FrontendMessage
  close : ℕ → Option Text → FrontendMessage
  sync flush terminate : FrontendMessage
  password_message_family : PasswordMessageFamily → FrontendMessage
  copy_data : Bytes → FrontendMessage
  copy_fail : Text → FrontendMessage
  copy_done portal_suspended : FrontendMessage

pub data Authentication : Type 0 where
  auth_ok cleartext_password kerberos_v5 md5_password sasl_continue sasl_final other_auth :
      Authentication
  sasl : List Text → Authentication

pub data SecretKey : Type 0 where
  key_i32 : ℕ → SecretKey
  key_bytes : Bytes → SecretKey

pub data TransactionStatus : Type 0 where
  idle transaction failed_transaction : TransactionStatus

-- SslResponse and GssEncResponse.
pub data Reply : Type 0 where
  accept refuse other_reply : Reply

pub data BackendMessage : Type 0 where
  authentication : Authentication → BackendMessage
  parameter_status : Text → Text → BackendMessage
  backend_key_data : ℕ → SecretKey → BackendMessage
  negotiate_protocol_version : ℕ → List Text → BackendMessage
  ready_for_query : TransactionStatus → BackendMessage
  command_complete : Text → BackendMessage
  empty_query_response : BackendMessage
  error_response notice_response : List (ℕ × Text) → BackendMessage
  notification_response : Text → Text → BackendMessage
  row_description : List FieldSummary → BackendMessage
  no_data : BackendMessage
  data_row : ℕ → Bytes → BackendMessage
  parameter_description : List ℕ → BackendMessage
  parse_complete bind_complete close_complete portal_suspended : BackendMessage
  ssl_response gss_enc_response : Reply → BackendMessage
  copy_in_response copy_out_response copy_both_response : ℕ → BackendMessage
  copy_data : Bytes → BackendMessage
  copy_fail : Text → BackendMessage
  copy_done : BackendMessage

-- `{}` of an `i32` and of an `i16`.
abbrev pub show_i32 : ℕ → Text
show_i32 n = if ltb n (2 ^ 31) then show n else b'-' ∷ show (2 ^ 32 - n)

abbrev pub show_i16 : ℕ → Text
show_i16 n = if ltb n (2 ^ 15) then show n else b'-' ∷ show (2 ^ 16 - n)

pub format_startup : ℕ → ℕ → List (Text × Text) → Text
format_startup major minor [] = codes "protocol " ++ show major ++ codes "." ++ show minor
format_startup major minor (p ∷ parameters) =
    codes "protocol "
    ++ show major
    ++ codes "."
    ++ show minor
    ++ codes "  "
    ++ join (map (λ q. q.0 ++ codes "=" ++ q.1) (p ∷ parameters))

pub format_parse : Option Text → List ℕ → Text → Text
format_parse name oids statement =
    or_else name (codes "<unnamed>")
    ++ codes "  [param types: "
    ++ format_oids oids
    ++ codes "]  "
    ++ statement

-- One parameter of a Bind, by the format codes of all of them.
unfoldable pub parameter_text : List ℕ → Option Bytes → Text
parameter_text format_codes none = codes "NULL"
parameter_text format_codes (some b) =
    if all_bytes (λ c. c == 1) format_codes
    then hex_preview b
    else if all_bytes (λ c. c == 0) format_codes || is_printable b
    then quote b
    else hex_preview b

pub format_bind : Bind → Text
format_bind b =
    or_else b.portal_name (codes "<unnamed>")
    ++ codes "  <-  "
    ++ or_else b.statement_name (codes "<unnamed>")
    ++ codes "  params: ["
    ++ join (map (parameter_text b.parameter_format_codes) b.parameters)
    ++ codes "]  result: "
    ++ format_format_codes b.result_column_format_codes

pub format_describe_close : ℕ → Option Text → Text
format_describe_close target_type name =
    (if target_type == b'S'
      then codes "statement"
      else if target_type == b'P'
      then codes "portal"
      else codes "?")
    ++ codes " "
    ++ or_else name (codes "<unnamed>")

pub format_execute : Option Text → ℕ → Text
format_execute name max_rows =
    if max_rows == 0
    then or_else name (codes "<unnamed>")
    else or_else name (codes "<unnamed>") ++ codes " (limit " ++ show_i32 max_rows ++ codes ")"

pub format_auth : Authentication → Text
format_auth auth_ok = codes "Ok"
format_auth cleartext_password = codes "CleartextPassword"
format_auth kerberos_v5 = codes "KerberosV5"
format_auth md5_password = codes "MD5Password"
format_auth (sasl methods) = codes "SASL [" ++ join methods ++ codes "]"
format_auth sasl_continue = codes "SASLContinue"
format_auth sasl_final = codes "SASLFinal"
format_auth other_auth = codes "Authentication"

abbrev pub key_text : SecretKey → Text
key_text (key_i32 i) = show_i32 i
key_text (key_bytes b) = hex_preview b

pub format_bkd : ℕ → SecretKey → Text
format_bkd pid key = codes "pid=" ++ show_i32 pid ++ codes " key=" ++ key_text key

pub format_negotiate : ℕ → List Text → Text
format_negotiate newest [] = codes "negotiated minor protocol " ++ show_i32 newest
format_negotiate newest (o ∷ unsupported) =
    codes "negotiated minor protocol "
    ++ show_i32 newest
    ++ codes "; unsupported: ["
    ++ join (o ∷ unsupported)
    ++ codes "]"

pub txn_status : TransactionStatus → Text
txn_status idle = codes "idle"
txn_status transaction = codes "in-transaction"
txn_status failed_transaction = codes "failed-transaction"

abbrev pub data_len : Option Bytes → ℕ
data_len none = 0
data_len (some b) = length b

pub format_pmf : PasswordMessageFamily → Text
format_pmf (password p) = codes "password (len=" ++ show (utf8_len p) ++ codes ")"
format_pmf (sasl_initial_response method b) =
    codes "SASL initial  mech=" ++ method ++ codes "  data-len=" ++ show (data_len b)
format_pmf (sasl_response b) = codes "SASL continue (len=" ++ show (length b) ++ codes ")"
format_pmf (raw_password b) =
    codes "raw password-family message (len=" ++ show (length b) ++ codes ")"
format_pmf other_password = codes "auth message"

pub format_copy_response : Text → ℕ → Text
format_copy_response dir columns =
    codes "copy " ++ dir ++ codes " (" ++ show_i16 columns ++ codes " columns)"
