-- ===== src/Capture/Tests.antt =====
-- A capture of three results, one of them a frame that is no TCP segment.
use tapgres.Prelude.{true, false, none, List, [], ◌∷◌, inr}
use tapgres.Filter.{codes}
use tapgres.Decode.Drain.Sample.{wire, clock, context}
use tapgres.Connection.{Env}
use tapgres.Capture.{Captured, packet, timeout_expired, no_more_packets, Pcap, PcapOpts}

abbrev env : Env
env = record {
  wire = wire;
  clock = clock;
  instant = λ n. n;
  default_context = context;
  show_ip = λ a. codes "127.0.0.1";
}

abbrev packets : List Captured
packets = timeout_expired ∷ packet (1 ∷ 2 ∷ []) ∷ no_more_packets ∷ []

abbrev loopback : Pcap
loopback = record {
  list = inr (record { name = codes "lo"; is_loopback = true } ∷ []);
  from = λ name. record { name = name; is_loopback = false };
  opened = λ d opts. inr (1, packets);
}

abbrev opts : PcapOpts
opts = record { port = 5432; interface = none; no_promisc = false; snaplen = 65535 }
