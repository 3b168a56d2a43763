-- ===== src/Capture.antt =====
-- src/capture.rs: the capture, from the choice of the device to the loop that feeds the table. What libpcap
-- returns is a parameter: the devices, and the results of `next_packet` in their order.
pub mod Loop
mod Tests
use tapgres.Prelude.{
  ◌⊎◌, inl, inr, ℕ, Bool, Option, none, some, List, [], ◌∷◌, ◌++◌, ◌==◌, ◌||◌, if◌then◌else◌, map,
}
use tapgres.Outcome.{Outcome, value, error, panic, out_of_fuel, ◌>>=◌, ◌>>◌}
use tapgres.Bytes.{Bytes}
use tapgres.Event.{Text, status}
use tapgres.Filter.{codes, text_eq}
use tapgres.Decode.{show, join}
use tapgres.Decode.Emit.{Log}
use tapgres.Net.{TcpSegment, parse_frame}
use tapgres.State.{Metrics}
use tapgres.Connection.{Env}
use tapgres.ConnTable.{ConnTable, with_metrics, handle}

pub record PcapOpts : Type 0 where
  pub port : ℕ
  pub interface : Option Text
  pub no_promisc : Bool
  pub snaplen : ℕ

-- The fields of pcap's `Device` that the program reads.
pub record Device : Type 0 where
  pub name : Text
  pub is_loopback : Bool

-- What `next_packet` returns.
pub data Captured : Type 0 where
  packet : Bytes → Captured
  timeout_expired no_more_packets : Captured
  failed : Text → Captured

-- libpcap: the devices, a device of a bare name, and an opened and filtered capture: its link type and packets.
pub record Pcap : Type 0 where
  pub list : Text ⊎ List Device
  pub from : Text → Device
  pub opened : Device → PcapOpts → Text ⊎ (ℕ × List Captured)

abbrev pub result : {A : Type 0} → Text ⊎ A → Outcome Text A
result (inl e) = error e
result (inr a) = value a

-- `devices.iter().find(..)`
pub find : (Device → Bool) → List Device → Option Device
find test [] = none
find test (d ∷ devices) = if test d then some d else find test devices

abbrev pub no_loopback : List Device → Text
no_loopback devices =
    codes "no loopback interface found; pass --interface (available: "
    ++ join (map (λ d. d.name) devices)
    ++ codes ")"

-- The devices, with the context of the error.
abbrev pub listed : Text ⊎ List Device → Outcome Text (List Device)
listed (inl e) = error (codes "listing interfaces: " ++ e)
listed (inr devices) = value devices

pub resolve_device : Pcap → Option Text → Outcome Text Device
resolve_device pcap none = do
  devices ← listed pcap.list
  elim (find (λ d. d.is_loopback) devices) [ none ↦ error (no_loopback devices) | some d ↦ value d ]
resolve_device pcap (some name) = do
  devices ← listed pcap.list
  elim (find (λ d. text_eq d.name name) devices) [
    | none ↦ value (pcap.from name)
    | some d ↦ value d
  ]

pub datalink_name : ℕ → Text
datalink_name dlt =
    if dlt == 0
    then codes "NULL (BSD loopback)"
    else if dlt == 1
    then codes "EN10MB (Ethernet)"
    else if dlt == 12 || dlt == 101
    then codes "RAW (raw IP)"
    else if dlt == 113
    then codes "LINUX_SLL (cooked)"
    else if dlt == 276
    then codes "LINUX_SLL2 (cooked v2)"
    else if dlt == 228
    then codes "IPV4"
    else if dlt == 229
    then codes "IPV6"
    else codes "unknown"

-- One frame: what is no TCP segment is passed over.
abbrev pub handled : Option ConnTable → Outcome Text ConnTable
handled none = out_of_fuel
handled (some t) = value t

abbrev pub ingest_parsed :
    Env → ℕ → ConnTable → Outcome (Unit {0}) TcpSegment → Outcome Text ConnTable
ingest_parsed env port t (value seg) = handled (handle env port seg t)
ingest_parsed env port t (error _) = value t
ingest_parsed env port t panic = panic
ingest_parsed env port t out_of_fuel = out_of_fuel

pub ingest : Env → ℕ → ℕ → Bytes → ConnTable → Outcome Text ConnTable
ingest env port dlt data_ t = ingest_parsed env port t (parse_frame data_ dlt)

-- The loop of `run`, to the end of the capture or of what has been captured so far.
pub capture_loop : Env → ℕ → ℕ → List Captured → ConnTable → Outcome Text ConnTable
capture_loop env port dlt [] t = value t
capture_loop env port dlt (packet data_ ∷ rest) t =
    ingest env port dlt data_ t >>= λ u. capture_loop env port dlt rest u
capture_loop env port dlt (timeout_expired ∷ rest) t = capture_loop env port dlt rest t
capture_loop env port dlt (no_more_packets ∷ rest) t = value t
capture_loop env port dlt (failed e ∷ rest) t = error e

abbrev pub banner : PcapOpts → Device → ℕ → Log
banner opts device dlt =
    status (
      codes "tapgres: capturing on '"
      ++ device.name
      ++ codes "'  (filter: tcp port "
      ++ show opts.port
      ++ codes ")")
    ∷ status (
        codes "tapgres: note "
        ++ 0x2014
          ∷ codes " only cleartext connections are decoded; run as root / grant CAP_NET_RAW.")
    ∷ status (
        codes "tapgres: datalink type = "
        ++ show dlt
        ++ codes " ("
        ++ datalink_name dlt
        ++ codes ")")
    ∷ []

-- `run`; the output before is `log`.
pub run : Env → Pcap → PcapOpts → Metrics → Log → Outcome Text ConnTable
run env pcap opts metrics log = do
  device ← resolve_device pcap opts.interface
  (dlt, packets) ← result (pcap.opened device opts)
  capture_loop env opts.port dlt packets (with_metrics metrics (log ++ banner opts device dlt))
