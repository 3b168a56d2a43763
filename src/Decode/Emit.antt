-- ===== src/Decode/Emit.antt =====
-- src/decode.rs: what the decoder emits. The outputs delivered so far are a log; the clock is read
-- once for each, so a reading is told by the length of the log before it.
pub mod Counts
use tapgres.Prelude.{ℕ, Option, none, some, List, [], ◌∷◌, ◌++◌, length}
use tapgres.Event.{
  Text, SocketAddr, MessageDirection, frontend_to_backend, backend_to_frontend, DisplayMessage,
  EventDetail, Output, message, line,
}
use tapgres.Filter.{codes}
use tapgres.Direction.{Role, client, server}

-- A reading of the clock: in RFC 3339, and as the time of day.
pub record Time : Type 0 where
  pub timestamp : Text
  pub display_time : Text

abbrev pub Clock : Type 0
Clock = ℕ → Time

abbrev pub Log : Type 0
Log = List Output

-- `out`
abbrev pub out : Text → Log → Log
out t log = log ++ line t ∷ []

-- The arrow is U+2192.
abbrev pub dir_tag : Role → Text
dir_tag client = b'F' ∷ 0x2192 ∷ b'B' ∷ []
dir_tag server = b'B' ∷ 0x2192 ∷ b'F' ∷ []

abbrev pub direction_of : Role → MessageDirection
direction_of client = frontend_to_backend
direction_of server = backend_to_frontend

abbrev pub colon_text : Text → Text
colon_text [] = []
colon_text (c ∷ t) = codes ": " ++ (c ∷ t)

-- MessageEmitter::emit_with_detail
pub emit_with_detail : Clock → Role → SocketAddr → Text → Text → Option EventDetail → Log → Log
emit_with_detail clock role endpoint kind text detail log =
    let now = clock (length log) in
    log
    ++ message
        (record {
          timestamp = now.timestamp;
          rendered =
              codes "["
              ++ now.display_time
              ++ codes "] ["
              ++ dir_tag role
              ++ codes "] "
              ++ kind
              ++ colon_text text;
          client = endpoint;
          direction = direction_of role;
          kind = kind;
          text = text;
        })
        detail
      ∷ []

abbrev pub emit : Clock → Role → SocketAddr → Text → Text → Log → Log
emit clock role endpoint kind text log = emit_with_detail clock role endpoint kind text none log

abbrev pub emit_rich : Clock → Role → SocketAddr → Text → Text → EventDetail → Log → Log
emit_rich clock role endpoint kind text detail log =
    emit_with_detail clock role endpoint kind text (some detail) log

-- MessageEmitter::warn; the sign is U+26A0.
pub warn : Clock → Role → SocketAddr → Text → Log → Log
warn clock role endpoint msg log =
    let now = clock (length log) in
    log
    ++ message
        (record {
          timestamp = now.timestamp;
          rendered =
              codes "["
              ++ now.display_time
              ++ codes "] ["
              ++ dir_tag role
              ++ codes "] "
              ++ 0x26a0 ∷ codes " "
              ++ msg;
          client = endpoint;
          direction = direction_of role;
          kind = codes "Warning";
          text = msg;
        })
        none
      ∷ []
