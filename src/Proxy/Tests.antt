-- ===== src/Proxy/Tests.antt =====
-- A proxied connection in the clear, with one-byte messages.
use tapgres.Prelude.{◌≡◌, false, Option, none, some, List, [], ◌∷◌, arith}
use tapgres.Event.{Text}
use tapgres.Direction.{Role, client, server}
use tapgres.Filter.{codes}
use tapgres.State.{Metrics, with_limits, open_connection}
use tapgres.State.Registry.{IsValid-with_limits}
use tapgres.Decode.Drain.Sample.{wire, wire-Documented, clock, context, local}
use tapgres.Connection.{Env, Shared}
use tapgres.Proxy.{Read, got, end_of_stream, Pumps, new_pump, Sockets, handle_connection}
use tapgres.Proxy.Guard.{CameAndWent, handle_connection-CameAndWent}

abbrev env : Env
env = record {
  wire = wire;
  clock = clock;
  instant = λ n. n;
  default_context = context;
  show_ip = λ a. codes "127.0.0.1";
}

abbrev fresh : Metrics
fresh = with_limits 10 60

abbrev reads : List (Role × Read)
reads =
    (client, got 1 (2 ∷ []))
    ∷ (server, got 3 [])
    ∷ (client, got 4 [])
    ∷ (server, end_of_stream)
    ∷ []

abbrev opened : Metrics
opened = (open_connection 0 (local 40000) (local 6432) false fresh).0

abbrev pumps : Pumps
pumps = record {
  client = new_pump env client (local 40000) (9 ∷ []);
  server = new_pump env server (local 40000) [];
  shared = record { metrics = opened; log = [] };
  to_server = 9 ∷ [];
  to_client = [];
}

abbrev sockets : Sockets
sockets = record {
  head = some (0 ∷ 0 ∷ 0 ∷ 9 ∷ 0 ∷ 3 ∷ 0 ∷ 0 ∷ []);
  reply_error = none;
  accept_error = none;
  connect_error = none;
  probe_error = none;
  probe_reply = some b'N';
  upstream_error = none;
  head_error = none;
  relay_error = none;
  reads = reads;
}

abbrev before : Shared
before = record { metrics = fresh; log = [] }

handle_connection-CameAndWent_example :
    (e : Option Text) × (r : Shared) × (handle_connection env false sockets
        (local 40000)
        (local 6432)
        before
      ≡ some (e, r))
    × CameAndWent fresh r.metrics
handle_connection-CameAndWent_example =
    handle_connection-CameAndWent env wire-Documented false sockets (local 40000) (local 6432)
      before (IsValid-with_limits 10 60) (omega arith)
