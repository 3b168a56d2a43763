-- ===== src/Connection.antt =====
-- src/flow.rs `Connection`: one PostgreSQL connection, its two directions and the handle of its record
-- in the metrics.
pub mod Handled
use tapgres.Prelude.{ℕ, Bool, true, false, Option, none, some, ltb, ◌==◌, if◌then◌else◌}
use tapgres.Event.{Text, SocketAddr}
use tapgres.Net.{IpAddr, TcpSegment}
use tapgres.Direction
use tapgres.State
use tapgres.Direction.{Direction, Role, DecodeContext, feed}
use tapgres.State.{Metrics, in_bound, out_bound, record_messages}
use tapgres.Decode.Emit.{Clock, Log}
use tapgres.Decode.Drain.{
  Wire, Drain, DrainOutcome, default_outcome, ServerNegotiationWait, no_wait, ssl_wait, gss_wait,
  drain_direction,
}

-- What the program runs on: the decoders, the clocks, and the texts of addresses. Both clocks are
-- told by the length of the log.
pub record Env : Type 0 where
  pub wire : Wire
  pub clock : Clock
  pub instant : ℕ → ℕ
  pub default_context : DecodeContext
  pub show_ip : IpAddr → Text

-- What the connections share: the metrics, and the outputs delivered.
pub record Shared : Type 0 where
  pub metrics : Metrics
  pub log : Log

-- `stats` is the id of the record.
pub record Connection : Type 0 where
  pub client : Direction
  pub server : Direction
  pub encrypted : Bool
  pub metrics_closed : Bool
  pub stats : ℕ

-- Connection::new; `endpoint` is the client address in the record.
abbrev pub new : DecodeContext → SocketAddr → ℕ → Connection
new default_context endpoint stats = record {
  client = tapgres.Direction.new default_context Role.client endpoint;
  server = tapgres.Direction.new default_context Role.server endpoint;
  encrypted = false;
  metrics_closed = false;
  stats = stats;
}

-- The direction that a segment travels in.
abbrev pub side : Bool → Connection → Direction
side true c = c.client
side false c = c.server

abbrev pub set_side : Bool → Direction → Connection → Connection
set_side true d c = record c { client = d }
set_side false d c = record c { server = d }

-- The request of the frontend tells the server direction what reply to expect.
abbrev pub awaiting : ServerNegotiationWait → DecodeContext → DecodeContext
awaiting no_wait ctx = ctx
awaiting ssl_wait ctx = record ctx { awaiting_backend_ssl_response = true }
awaiting gss_wait ctx = record ctx { awaiting_backend_gss_response = true }

abbrev pub arm : Bool → ServerNegotiationWait → Connection → Connection
arm true w c = record c { server = record (c.server) { ctx = awaiting w c.server.ctx } }
arm false w c = c

-- The metrics of what a drain found.
pub account : Bool → DrainOutcome → ℕ → Metrics → Metrics
account is_client_dir outcome id m =
    let marked = if outcome.encrypted then tapgres.State.set_encrypted id true m else m in
    if ltb 0 outcome.msgs
    then record_messages id (if is_client_dir then in_bound else out_bound) outcome.msgs
        outcome.bytes marked
    else marked

-- The rest of `handle`, behind the drain.
pub settle : Bool → Drain → Connection → Shared → Connection × Shared
settle is_client_dir r c s =
    let armed =
      arm is_client_dir r.outcome.server_negotiation_wait (set_side is_client_dir r.dir c) in
    (
      (if r.outcome.encrypted then record armed { encrypted = true } else armed),
      record { metrics = account is_client_dir r.outcome c.stats s.metrics; log = r.log },
    )

abbrev pub settled : Bool → Connection → Shared → Option Drain → Option (Connection × Shared)
settled is_client_dir c s none = none
settled is_client_dir c s (some r) = some (settle is_client_dir r c s)

-- Connection::handle; none says that a drain ran out of fuel.
pub handle : Env → ℕ → TcpSegment → Connection → Shared → Option (Connection × Shared)
handle env pg_port seg c s =
    let is_client_dir = seg.dst_port == pg_port in
    let fed = feed (side is_client_dir c) seg.seq seg.syn seg.payload in
    if c.encrypted
    then some (c, s)
    else settled is_client_dir c s (
        drain_direction env.wire env.clock
          (record { dir = fed; outcome = default_outcome; log = s.log }))
