-- ===== src/Decode/Drain.antt =====
-- src/decode.rs: the handlers of decoded messages, and `drain_direction`. The decoder is that of the
-- pgwire crate, a parameter `Wire`.
pub mod Counts
pub mod Total
pub mod Sample
mod Tests
use tapgres.Prelude.{
  ℕ, zero, suc, ◌+◌, ◌-◌, Bool, true, false, Option, none, some, List, [], ◌∷◌, ◌++◌, if◌then◌else◌,
  length,
}
use tapgres.Bytes.{Bytes}
use tapgres.Event.{
  Text, FieldSummary, row_description as detail_row_description, data_row as detail_data_row,
  EventDetail,
}
use tapgres.Filter.{codes}
use tapgres.Direction.{Role, client, server, DecodeContext, Direction}
use tapgres.Decode.{
  show, format_bytes, format_oids, format_row_desc, format_columns, data_row_columns,
  format_error_fields,
}
use tapgres.Decode.Messages.{
  Bind, FrontendMessage, negotiation_none, postgres_ssl, postgres_gss, startup, cancel_request,
  query, parse, bind, describe, execute, close, sync, flush, terminate, password_message_family,
  BackendMessage, authentication, parameter_status, backend_key_data, negotiate_protocol_version,
  ready_for_query, command_complete, empty_query_response, error_response, notice_response,
  notification_response, row_description, no_data, data_row, parameter_description, parse_complete,
  bind_complete, close_complete, ssl_response, gss_enc_response, copy_in_response,
  copy_out_response, copy_both_response, Reply, accept, refuse, other_reply, format_startup,
  format_parse, format_bind, format_describe_close, format_execute, format_pmf, format_auth,
  format_bkd, format_negotiate, txn_status, format_copy_response,
}
use tapgres.Decode.Emit.{Clock, Log, out, dir_tag, emit, emit_rich, emit_with_detail, warn}

pub data ServerNegotiationWait : Type 0 where
  no_wait ssl_wait gss_wait : ServerNegotiationWait

-- The counts are below the length of a buffer, so their `u64` does not wrap around.
pub record DrainOutcome : Type 0 where
  pub server_negotiation_wait : ServerNegotiationWait
  pub encrypted : Bool
  pub msgs : ℕ
  pub bytes : ℕ

-- DrainOutcome::default
abbrev pub default_outcome : DrainOutcome
default_outcome = record {
  server_negotiation_wait = no_wait;
  encrypted = false;
  msgs = 0;
  bytes = 0;
}

-- What a decoder makes of a buffer: `Ok(None)`, `Ok(Some(_))` or `Err(_)`, with the buffer it leaves.
pub data Decoded (M : Type 0) : Type 0 where
  incomplete : Bytes → Decoded M
  decoded : M → Bytes → Decoded M
  undecodable : Text → Bytes → Decoded M

-- The decoders of the pgwire crate, and `{:?}` of a string.
pub record Wire : Type 0 where
  pub frontend : DecodeContext → Bytes → Decoded FrontendMessage
  pub backend : DecodeContext → Bytes → Decoded BackendMessage
  pub debug : Text → Text

-- What a drain works on: the direction, the outcome, and what has been delivered.
pub record Drain : Type 0 where
  pub dir : Direction
  pub outcome : DrainOutcome
  pub log : Log

abbrev pub with_context : (DecodeContext → DecodeContext) → Drain → Drain
with_context f d = record d { dir = record (d.dir) { ctx = f d.dir.ctx } }

abbrev pub count_message : ℕ → Drain → Drain
count_message consumed d = record d {
  outcome = record (d.outcome) { msgs = d.outcome.msgs + 1; bytes = d.outcome.bytes + consumed };
}

abbrev pub set_wait : ServerNegotiationWait → Drain → Drain
set_wait w d = record d { outcome = record (d.outcome) { server_negotiation_wait = w } }

abbrev pub set_row_desc : Option (List FieldSummary) → Drain → Drain
set_row_desc desc d = record d { dir = record (d.dir) { row_desc = desc } }

abbrev pub set_encrypted : Drain → Drain
set_encrypted d = record d { outcome = record (d.outcome) { encrypted = true } }

module _ (clock : Clock) where
  abbrev pub say : Text → Text → Drain → Drain
  say kind text d = record d { log = emit clock d.dir.role d.dir.client kind text d.log }

  abbrev pub say_rich : Text → Text → EventDetail → Drain → Drain
  say_rich kind text detail d = record d {
    log = emit_rich clock d.dir.role d.dir.client kind text detail d.log;
  }

  abbrev pub say_warning : Text → Drain → Drain
  say_warning msg d = record d { log = warn clock d.dir.role d.dir.client msg d.log }

abbrev pub is_peek : FrontendMessage → Bool
is_peek negotiation_none = true
is_peek _ = false

abbrev pub no_ssl : DecodeContext → DecodeContext
no_ssl ctx = record ctx { awaiting_frontend_ssl = false }

-- The `match` of `handle_frontend`; it also tells whether draining goes on.
pub show_frontend : Clock → FrontendMessage → Drain → Drain × Bool
show_frontend clock negotiation_none d = (with_context no_ssl d, true)
show_frontend clock postgres_ssl d = (
  say clock (codes "SSLRequest") (codes "(awaiting server reply)")
      (set_wait ssl_wait (with_context no_ssl d)),
  false,
)
show_frontend clock postgres_gss d = (
  say clock (codes "GssEncRequest") (codes "(awaiting server reply)")
      (set_wait gss_wait (with_context no_ssl d)),
  false,
)
show_frontend clock (startup major minor parameters) d = (
  say clock (codes "Startup") (format_startup major minor parameters)
      (with_context (λ ctx. record ctx { awaiting_frontend_startup = false }) d),
  true,
)
show_frontend clock cancel_request d = (say clock (codes "CancelRequest") [] d, true)
show_frontend clock (query text) d = (say clock (codes "Query") text d, true)
show_frontend clock (parse name oids text) d =
    (say clock (codes "Parse") (format_parse name oids text) d, true)
show_frontend clock (bind b) d = (say clock (codes "Bind") (format_bind b) d, true)
show_frontend clock (describe target_type name) d =
    (say clock (codes "Describe") (format_describe_close target_type name) d, true)
show_frontend clock (execute name max_rows) d =
    (say clock (codes "Execute") (format_execute name max_rows) d, true)
show_frontend clock (close target_type name) d =
    (say clock (codes "Close") (format_describe_close target_type name) d, true)
show_frontend clock sync d = (say clock (codes "Sync") [] d, true)
show_frontend clock flush d = (say clock (codes "Flush") [] d, true)
show_frontend clock terminate d = (say clock (codes "Terminate") [] d, true)
show_frontend clock (password_message_family p) d =
    (say clock (codes "AuthData") (format_pmf p) d, true)
show_frontend clock (FrontendMessage.copy_data b) d =
    (say clock (codes "CopyData") (format_bytes b) d, true)
show_frontend clock (FrontendMessage.copy_fail text) d = (say clock (codes "CopyFail") text d, true)
show_frontend clock FrontendMessage.copy_done d = (say clock (codes "CopyDone") [] d, true)
show_frontend clock FrontendMessage.portal_suspended d =
    (say clock (codes "PortalSuspended") [] d, true)

pub handle_frontend : Clock → FrontendMessage → ℕ → Drain → Drain × Bool
handle_frontend clock msg consumed d =
    show_frontend clock msg (if is_peek msg then d else count_message consumed d)

pub show_ssl_reply : Clock → Text → Text → Reply → Drain → Drain
show_ssl_reply clock kind accepted accept d = set_encrypted (say_warning clock accepted d)
show_ssl_reply clock kind accepted refuse d =
    say clock kind (codes "refuse (continuing in cleartext)") d
show_ssl_reply clock kind accepted other_reply d = say clock kind (codes "unknown") d

-- The case of a DataRow, by the cached description.
pub show_data_row : Clock → ℕ → Bytes → Option (List FieldSummary) → Drain → Drain
show_data_row clock field_count payload none d =
    say clock (codes "DataRow") (format_columns (data_row_columns field_count payload none) false) d
show_data_row clock field_count payload (some desc) d =
    let columns = data_row_columns field_count payload (some desc) in
    say_rich clock (codes "DataRow") (format_columns columns true) (detail_data_row columns) d

-- The `match` of `handle_backend`.
pub show_backend : Clock → (Text → Text) → BackendMessage → Drain → Drain
show_backend clock debug (authentication a) d = say clock (codes "Authentication") (format_auth a) d
show_backend clock debug (parameter_status name v) d =
    say clock (codes "ParameterStatus") (name ++ codes "=" ++ v) d
show_backend clock debug (backend_key_data pid key) d =
    say clock (codes "BackendKeyData") (format_bkd pid key) d
show_backend clock debug (negotiate_protocol_version newest unsupported) d =
    say clock (codes "NegotiateProtocolVersion") (format_negotiate newest unsupported) d
show_backend clock debug (ready_for_query s) d =
    say clock (codes "ReadyForQuery") (codes "txn=" ++ txn_status s) d
show_backend clock debug (command_complete tag) d = say clock (codes "CommandComplete") tag d
show_backend clock debug empty_query_response d = say clock (codes "EmptyQueryResponse") [] d
show_backend clock debug (error_response fields) d =
    say clock (codes "ERROR") (format_error_fields fields) d
show_backend clock debug (notice_response fields) d =
    say clock (codes "NOTICE") (format_error_fields fields) d
show_backend clock debug (notification_response channel payload) d =
    say clock (codes "NOTIFY")
      (codes "channel=" ++ debug channel ++ codes " payload=" ++ debug payload) d
show_backend clock debug (row_description fields) d = set_row_desc (some fields) (
    say_rich clock (codes "RowDescription") (format_row_desc fields) (detail_row_description fields)
      d)
show_backend clock debug no_data d = say clock (codes "NoData") [] (set_row_desc none d)
show_backend clock debug (data_row field_count payload) d =
    show_data_row clock field_count payload d.dir.row_desc d
show_backend clock debug (parameter_description types) d =
    say clock (codes "ParameterDescription") (format_oids types) d
show_backend clock debug parse_complete d = say clock (codes "ParseComplete") [] d
show_backend clock debug bind_complete d = say clock (codes "BindComplete") [] d
show_backend clock debug close_complete d = say clock (codes "CloseComplete") [] d
show_backend clock debug BackendMessage.portal_suspended d =
    say clock (codes "PortalSuspended") [] d
show_backend clock debug (ssl_response r) d =
    show_ssl_reply clock (codes "SslResponse")
      (codes "SSL accepted " ++ 0x2014 ∷ codes " connection is now encrypted, decoding stops here")
      r (with_context (λ ctx. record ctx { awaiting_backend_ssl_response = false }) d)
show_backend clock debug (gss_enc_response r) d =
    show_ssl_reply clock (codes "GssEncResponse")
      (codes "GSS accepted " ++ 0x2014 ∷ codes " connection is now encrypted, decoding stops here")
      r (with_context (λ ctx. record ctx { awaiting_backend_gss_response = false }) d)
show_backend clock debug (copy_in_response columns) d =
    say clock (codes "CopyInResponse") (format_copy_response (codes "in") columns) d
show_backend clock debug (copy_out_response columns) d =
    say clock (codes "CopyOutResponse") (format_copy_response (codes "out") columns) d
show_backend clock debug (copy_both_response columns) d =
    say clock (codes "CopyBothResponse") (format_copy_response (codes "both") columns) d
show_backend clock debug (BackendMessage.copy_data b) d =
    say clock (codes "CopyData") (format_bytes b) d
show_backend clock debug (BackendMessage.copy_fail text) d = say clock (codes "CopyFail") text d
show_backend clock debug BackendMessage.copy_done d = say clock (codes "CopyDone") [] d

pub handle_backend : Clock → (Text → Text) → BackendMessage → ℕ → Drain → Drain
handle_backend clock debug msg consumed d = show_backend clock debug msg (count_message consumed d)

abbrev pub role_dbg : Role → Text
role_dbg client = codes "client"
role_dbg server = codes "server"

abbrev pub with_buffer : Bytes → Drain → Drain
with_buffer b d = record d { dir = record (d.dir) { rxbuf = b } }

-- `decode_error`, which clears the buffer; the sign is U+26A0.
pub decode_error : Role → Text → Drain → Drain
decode_error role e d = with_buffer [] (record d {
  log =
      out
        (codes "["
          ++ role_dbg role
          ++ codes "] ["
          ++ dir_tag role
          ++ codes "] "
          ++ 0x26a0 ∷ codes " decode error ("
          ++ show (length d.dir.rxbuf)
          ++ codes " lost bytes): "
          ++ e)
        d.log;
})

-- One round of the frontend's loop, which goes on by `again`, and of the backend's.
pub frontend_round : Clock → (Drain → Option Drain) → Decoded FrontendMessage → Drain → Option Drain
frontend_round clock again (incomplete left) d = some (with_buffer left d)
frontend_round clock again (decoded msg left) d =
    let (next, more) =
      handle_frontend clock msg (length d.dir.rxbuf - length left) (with_buffer left d) in
    elim more [ true ↦ again next | false ↦ some next ]
frontend_round clock again (undecodable e left) d =
    some (decode_error client e (with_buffer left d))

pub backend_round :
    Clock → (Text → Text) → (Drain → Option Drain) → Decoded BackendMessage → Drain → Option Drain
backend_round clock debug again (incomplete left) d = some (with_buffer left d)
backend_round clock debug again (decoded msg left) d =
    again (handle_backend clock debug msg (length d.dir.rxbuf - length left) (with_buffer left d))
backend_round clock debug again (undecodable e left) d =
    some (decode_error server e (with_buffer left d))

module _ (wire : Wire) (clock : Clock) where
  -- The loops on fuel; `none` is a loop that has not ended.
  pub drain_frontend : ℕ → Drain → Option Drain
  drain_frontend zero d = none
  drain_frontend (suc fuel) d =
      frontend_round clock (drain_frontend fuel) (wire.frontend d.dir.ctx d.dir.rxbuf) d

  pub drain_backend : ℕ → Drain → Option Drain
  drain_backend zero d = none
  drain_backend (suc fuel) d =
      backend_round clock wire.debug (drain_backend fuel) (wire.backend d.dir.ctx d.dir.rxbuf) d

  -- A message takes a byte at least, but for a peek, which is not repeated.
  abbrev pub drain_by_role : Role → Drain → Option Drain
  drain_by_role client d = drain_frontend (length d.dir.rxbuf + 3) d
  drain_by_role server d = drain_backend (length d.dir.rxbuf + 3) d

  pub drain_direction : Drain → Option Drain
  drain_direction d = if d.outcome.encrypted then some d else drain_by_role d.dir.role d
