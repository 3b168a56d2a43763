-- ===== src/Proxy.antt =====
-- src/proxy.rs: the choice of the transports, the pumps and the life of a proxied connection. The sockets, TLS
-- and the scheduler are parameters: what each of their operations returns, and the order in which the
-- two pumps read; a round of a pump is one step, and the addresses of the two sockets are known.
pub mod Relay
pub mod Guard
mod Tests
use tapgres.Prelude.{
  ℕ, Bool, true, false, Option, none, some, List, [], ◌∷◌, ◌++◌, ltb, ◌==◌, if◌then◌else◌, take,
  drop, length,
}
use tapgres.Bytes.{Bytes}
use tapgres.Event.{Text, SocketAddr}
use tapgres.Filter.{text_eq}
use tapgres.Direction.{Direction, Role, client, server, for_decoding}
use tapgres.State.{
  Metrics, TrafficDirection, in_bound, out_bound, record_messages, open_connection,
  close_connection,
}
use tapgres.Decode.Drain.{Drain, DrainOutcome, default_outcome, drain_direction}
use tapgres.Connection.{Env, Shared}

abbrev pub ssl_magic : Bytes
ssl_magic = 0x04 ∷ 0xd2 ∷ 0x16 ∷ 0x2f ∷ []

abbrev pub gss_magic : Bytes
gss_magic = 0x04 ∷ 0xd2 ∷ 0x16 ∷ 0x30 ∷ []

abbrev pub cancel_magic : Bytes
cancel_magic = 0x04 ∷ 0xd2 ∷ 0x16 ∷ 0x2e ∷ []

abbrev pub ssl_request : Bytes
ssl_request = 0x00 ∷ 0x00 ∷ 0x00 ∷ 0x08 ∷ 0x04 ∷ 0xd2 ∷ 0x16 ∷ 0x2f ∷ []

-- What a read of a pump comes to, and the write of what it has read: bytes, of which the first is given by itself, bytes that
-- cannot be written, the end of the stream, or an error.
pub data Read : Type 0 where
  got unwritten : ℕ → Bytes → Read
  end_of_stream read_failed : Read

-- The two pumps of a connection, and the plaintext that each has written.
pub record Pumps : Type 0 where
  pub client : Direction
  pub server : Direction
  pub shared : Shared
  pub to_server : Bytes
  pub to_client : Bytes

abbrev pub direction : Role → TrafficDirection
direction client = in_bound
direction server = out_bound

abbrev pub pump_of : Role → Pumps → Direction
pump_of client p = p.client
pump_of server p = p.server

-- A pump's direction at its start; the prefix has been peeled off the stream.
abbrev pub new_pump : Env → Role → SocketAddr → Bytes → Direction
new_pump env role endpoint prefix =
    let d = for_decoding env.default_context role endpoint in record d { rxbuf = d.rxbuf ++ prefix }

abbrev pub counted : ℕ → Role → DrainOutcome → Metrics → Metrics
counted id role outcome m =
    if ltb 0 outcome.msgs
    then record_messages id (direction role) outcome.msgs outcome.bytes m
    else m

abbrev pub set_pump : Role → Drain → ℕ → Pumps → Pumps
set_pump client r id p = record p {
  client = r.dir;
  shared = record { metrics = counted id client r.outcome p.shared.metrics; log = r.log };
}
set_pump server r id p = record p {
  server = r.dir;
  shared = record { metrics = counted id server r.outcome p.shared.metrics; log = r.log };
}

abbrev pub drained : Role → ℕ → Pumps → Option Drain → Option Pumps
drained role id p none = none
drained role id p (some r) = some (set_pump role r id p)

-- The decoding of what has been read; none says that the drain ran out of fuel.
pub decode_chunk : Env → ℕ → Role → Bytes → Pumps → Option Pumps
decode_chunk env id role chunk p =
    let d = pump_of role p in
    drained role id p (
      drain_direction env.wire env.clock (record {
        dir = record d { rxbuf = d.rxbuf ++ chunk };
        outcome = default_outcome;
        log = p.shared.log;
      }))

abbrev pub forward_chunk : Role → Bytes → Pumps → Pumps
forward_chunk client chunk p = record p { to_server = p.to_server ++ chunk }
forward_chunk server chunk p = record p { to_client = p.to_client ++ chunk }

abbrev pub and_then : Option Pumps → (Pumps → Option Pumps) → Option Pumps
and_then none f = none
and_then (some p) f = f p

-- Rounds of `pump` in the order of the reads; the first pump that ends ends both. What a write that
-- fails has written of its bytes is not told.
pub run_pumps : Env → ℕ → List (Role × Read) → Pumps → Option Pumps
run_pumps env id [] p = some p
run_pumps env id ((role, got b chunk) ∷ reads) p =
    and_then (decode_chunk env id role (b ∷ chunk) p)
      λ q. run_pumps env id reads (forward_chunk role (b ∷ chunk) q)
run_pumps env id ((role, unwritten b chunk) ∷ reads) p = decode_chunk env id role (b ∷ chunk) p
run_pumps env id ((role, end_of_stream) ∷ reads) p = some p
run_pumps env id ((role, read_failed) ∷ reads) p = some p

-- What the operations on the two sockets return: the first eight bytes, if they come, the errors, and the server's reply to the
-- probe for TLS.
pub record Sockets : Type 0 where
  pub head : Option Bytes
  pub reply_error : Option Text
  pub accept_error : Option Text
  pub connect_error : Option Text
  pub probe_error : Option Text
  pub probe_reply : Option ℕ
  pub upstream_error : Option Text
  pub head_error : Option Text
  pub relay_error : Option Text
  pub reads : List (Role × Read)

-- What the first bytes ask for: `client_tls` and `initial`, or a cancel request.
pub data Opening : Type 0 where
  cancel : Opening
  start : Bool → Bytes → Opening

pub opening_of : Bytes → Opening
opening_of head =
    let body = drop 4 head in
    if text_eq body cancel_magic
    then cancel
    else if text_eq body ssl_magic
    then start true []
    else if text_eq body gss_magic
    then start false []
    else start false head

-- The bytes that answer a request for encryption, in the clear.
abbrev pub answer_to : Bytes → Bytes
answer_to head =
    if text_eq (drop 4 head) ssl_magic
    then b'S' ∷ []
    else if text_eq (drop 4 head) gss_magic
    then b'N' ∷ []
    else []

-- The first of the errors, if there is one.
abbrev pub first_error : List (Option Text) → Option Text
first_error [] = none
first_error (none ∷ errors) = first_error errors
first_error (some e ∷ errors) = some e

abbrev pub when : Bool → Option Text → Option Text
when b e = if b then e else none

-- Whether the upstream leg is encrypted: the server has answered the probe with `S`.
abbrev pub upstream_tls : Bool → Option ℕ → Bool
upstream_tls no_upstream_tls none = false
upstream_tls no_upstream_tls (some reply) = if no_upstream_tls then false else reply == b'S'

-- The errors that end a connection before its pumps start, in their order.
abbrev pub setup_errors : Bool → Sockets → Bytes → Bool → Bytes → Option Text
setup_errors no_upstream_tls io head client_tls initial = first_error (
    when (ltb 0 (length (answer_to head))) io.reply_error
    ∷ when client_tls io.accept_error
    ∷ io.connect_error
    ∷ when (if no_upstream_tls then false else true) io.probe_error
    ∷ when (upstream_tls no_upstream_tls io.probe_reply) io.upstream_error
    ∷ when (ltb 0 (length initial)) io.head_error
    ∷ [])

-- The end of `handle_connection`: the error that it returns, and what is shared.
abbrev pub Ended : Type 0
Ended = Option Text × Shared

abbrev pub relayed : Option Pumps → Option Ended
relayed none = none
relayed (some p) = some (none, p.shared)

abbrev pub proxied : Env → Bool → Sockets → ℕ → SocketAddr → Bytes → Opening → Shared → Option Ended
proxied env no_upstream_tls io id endpoint head cancel s =
    some (first_error (io.connect_error ∷ io.head_error ∷ io.relay_error ∷ []), s)
proxied env no_upstream_tls io id endpoint head (start client_tls initial) s =
    elim (setup_errors no_upstream_tls io head client_tls initial) [
      | some e ↦ some (some e, s)
      | none ↦ relayed (
          run_pumps env id io.reads (record {
            client = new_pump env client endpoint initial;
            server = new_pump env server endpoint [];
            shared = s;
            to_server = initial;
            to_client = [];
          }))
    ]

abbrev pub begun : Env → Bool → Sockets → ℕ → SocketAddr → Option Bytes → Shared → Option Ended
begun env no_upstream_tls io id endpoint none s = some (none, s)
begun env no_upstream_tls io id endpoint (some head) s =
    proxied env no_upstream_tls io id endpoint head (opening_of head) s

-- ConnectionGuard::drop, on every path.
abbrev pub dropped : Env → ℕ → Option Ended → Option Ended
dropped env id none = none
dropped env id (some (e, s)) =
    some (e, record s { metrics = close_connection (env.instant (length s.log)) id s.metrics })

-- handle_connection; none says that a drain ran out of fuel.
pub handle_connection : Env → Bool → Sockets → SocketAddr → SocketAddr → Shared → Option Ended
handle_connection env no_upstream_tls io endpoint proxy s =
    let (metrics, id) =
      open_connection (env.instant (length s.log)) endpoint proxy false s.metrics in
    dropped env id
      (begun env no_upstream_tls io id endpoint io.head (record s { metrics = metrics }))
