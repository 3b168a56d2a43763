-- ===== src/ConnTable/Tests.antt =====
-- The table at a packet of one-byte messages.
use tapgres.Prelude.{◌≡◌, refl, true, false, some, [], ◌∷◌, arith}
use tapgres.Net.{TcpSegment, v4}
use tapgres.Filter.{codes}
use tapgres.State.{with_limits}
use tapgres.State.Registry.{IsValid-with_limits}
use tapgres.State.Counts.{id_count, open_count, total_open}
use tapgres.Decode.Drain.Sample.{wire, wire-Documented, clock, context}
use tapgres.Connection.{Env}
use tapgres.ConnTable.{ConnKey, ConnTable, with_metrics, handle, get}
use tapgres.ConnTable.Entries.{total}
use tapgres.ConnTable.Tracks.{Tracks}
use tapgres.ConnTable.Advance.{Advance, openings, handle-Advance}
use tapgres.ConnTable.Others.{Served, handle-Served}
use tapgres.Decode.Emit.Counts.{message_count}

abbrev env : Env
env = record {
  wire = wire;
  clock = clock;
  instant = λ n. n;
  default_context = context;
  show_ip = λ a. codes "127.0.0.1";
}

abbrev request : TcpSegment
request = record {
  src = v4 127 0 0 1;
  dst = v4 127 0 0 1;
  src_port = 40000;
  dst_port = 5432;
  seq = 1;
  ack = 0;
  syn = false;
  fin = true;
  rst = false;
  payload = 1 ∷ 2 ∷ 3 ∷ [];
}

abbrev empty : ConnTable
empty = with_metrics (with_limits 10 60) []

empty-Tracks : Tracks empty
unfolding total id_count open_count total_open message_count
empty-Tracks = record {
  valid = IsValid-with_limits 10 60;
  agree = refl;
  known = λ k. omega arith;
  opens = λ k. refl;
  live = refl;
}

handle-Advance_example :
    (u : ConnTable) × (handle env 5432 request empty ≡ some u)
    × Advance (openings 5432 request empty) empty u
handle-Advance_example =
    handle-Advance env 5432 request empty wire-Documented empty-Tracks (omega arith)

opened_once : openings 5432 request empty ≡ 1
unfolding get
opened_once = refl

abbrev request_key : ConnKey
request_key = record {
  client = record { ip = v4 127 0 0 1; port = 40000 };
  server = record { ip = v4 127 0 0 1; port = 5432 };
}

handle-Served_example :
    (u : ConnTable) × (handle env 5432 request empty ≡ some u) × Served request_key request empty u
handle-Served_example =
    handle-Served env 5432 request request_key empty wire-Documented empty-Tracks (omega arith) refl
