-- ===== src/State.antt =====
-- src/state.rs: connection and traffic metrics. A `ConnStats` is shared by the registry and by the
-- source that holds its handle: the records stand in `store`, one for each connection opened, and a
-- handle or a registry entry is the record's id. An operation is one step of the model.
pub mod Counts
pub mod Registry
pub mod Closing
pub mod Reach
pub mod Effects
pub mod Rates
pub mod Totals
mod Tests
use tapgres.Prelude.{
  ℕ, zero, suc, ◌+◌, ◌-◌, ◌%◌, ◌^◌, Bool, true, false, Option, none, some, List, [], ◌∷◌, ◌++◌, map,
  ltb, leb, ◌==◌, if◌then◌else◌, length, drop,
}
use tapgres.Event.{SocketAddr}

abbrev pub u64_mod : ℕ
u64_mod = 2 ^ 64

-- `fetch_add` and `fetch_sub` of `AtomicU64` wrap around; so does `AtomicUsize` at 64 bits.
abbrev pub fetch_add : ℕ → ℕ → ℕ
fetch_add a b = (a + b) % u64_mod

abbrev pub fetch_sub_one : ℕ → ℕ
fetch_sub_one a = (a + u64_mod - 1) % u64_mod

pub data TrafficDirection : Type 0 where
  in_bound out_bound : TrafficDirection

-- Instants are numbers that the clock hands out.
pub data ConnectionLifecycle : Type 0 where
  opened : ℕ → ConnectionLifecycle
  closed : ℕ → ℕ → ConnectionLifecycle

pub record ConnStats : Type 0 where
  pub id : ℕ
  pub client : SocketAddr
  pub server : SocketAddr
  pub lifecycle : ConnectionLifecycle
  pub encrypted : Bool
  pub msgs_in : ℕ
  pub msgs_out : ℕ
  pub bytes_in : ℕ
  pub bytes_out : ℕ

-- `RateSample` and `Totals` have the same four fields.
pub record RateSample : Type 0 where
  pub msgs_in : ℕ
  pub msgs_out : ℕ
  pub bytes_in : ℕ
  pub bytes_out : ℕ

-- The keys of the `entries` map, and the queue `closed`.
pub record ConnRegistry : Type 0 where
  pub entries : List ℕ
  pub closed : List ℕ

pub record RateHistory : Type 0 where
  pub previous : RateSample
  pub samples : List RateSample

pub record Metrics : Type 0 where
  pub conns_opened : ℕ
  pub conns_live : ℕ
  pub next_conn_id : ℕ
  pub msgs_in : ℕ
  pub msgs_out : ℕ
  pub bytes_in : ℕ
  pub bytes_out : ℕ
  pub conns : ConnRegistry
  pub rates : RateHistory
  pub connection_cap : ℕ
  pub rate_history : ℕ
  pub store : List ConnStats

abbrev pub zero_totals : RateSample
zero_totals = record { msgs_in = 0; msgs_out = 0; bytes_in = 0; bytes_out = 0 }

abbrev pub with_limits : ℕ → ℕ → Metrics
with_limits connection_cap rate_history = record {
  conns_opened = 0;
  conns_live = 0;
  next_conn_id = 1;
  msgs_in = 0;
  msgs_out = 0;
  bytes_in = 0;
  bytes_out = 0;
  conns = record { entries = []; closed = [] };
  rates = record { previous = zero_totals; samples = [] };
  connection_cap = connection_cap;
  rate_history = rate_history;
  store = [];
}

-- Metrics::new
abbrev pub default_metrics : Metrics
default_metrics = with_limits 10000 60

-- `HashMap::remove` and `insert` on the keys.
pub without : ℕ → List ℕ → List ℕ
without k [] = []
without k (j ∷ l) = let rest = without k l in if j == k then rest else j ∷ rest

pub find : ℕ → List ConnStats → Option ConnStats
find k [] = none
find k (c ∷ l) = if c.id == k then some c else find k l

-- A write through a handle.
pub update : ℕ → (ConnStats → ConnStats) → List ConnStats → List ConnStats
update k f [] = []
update k f (c ∷ l) = (if c.id == k then f c else c) ∷ update k f l

-- The new connection's handle is returned.
pub open_connection : ℕ → SocketAddr → SocketAddr → Bool → Metrics → Metrics × ℕ
open_connection now client server encrypted m =
    let id = m.next_conn_id in
    let stats : ConnStats = record {
      id = id;
      client = client;
      server = server;
      lifecycle = opened now;
      encrypted = encrypted;
      msgs_in = 0;
      msgs_out = 0;
      bytes_in = 0;
      bytes_out = 0;
    } in
    (
      record m {
        next_conn_id = fetch_add id 1;
        store = stats ∷ m.store;
        conns = record (m.conns) { entries = id ∷ without id m.conns.entries };
        conns_opened = fetch_add m.conns_opened 1;
        conns_live = fetch_add m.conns_live 1;
      },
      id,
    )

abbrev pub add_in : ℕ → ℕ → ConnStats → ConnStats
add_in n bytes c = record c {
  msgs_in = fetch_add c.msgs_in n;
  bytes_in = fetch_add c.bytes_in bytes;
}

abbrev pub add_out : ℕ → ℕ → ConnStats → ConnStats
add_out n bytes c = record c {
  msgs_out = fetch_add c.msgs_out n;
  bytes_out = fetch_add c.bytes_out bytes;
}

pub record_messages : ℕ → TrafficDirection → ℕ → ℕ → Metrics → Metrics
record_messages id in_bound n bytes m = record m {
  msgs_in = fetch_add m.msgs_in n;
  bytes_in = fetch_add m.bytes_in bytes;
  store = update id (add_in n bytes) m.store;
}
record_messages id out_bound n bytes m = record m {
  msgs_out = fetch_add m.msgs_out n;
  bytes_out = fetch_add m.bytes_out bytes;
  store = update id (add_out n bytes) m.store;
}

pub set_encrypted : ℕ → Bool → Metrics → Metrics
set_encrypted id encrypted m = record m {
  store = update id (λ c. record c { encrypted = encrypted }) m.store;
}

-- The loop of `close_connection`: while more entries than `cap` are retained, the oldest closed
-- connection goes.
pub evict : ℕ → List ℕ → List ℕ → ConnRegistry
evict cap entries [] = record { entries = entries; closed = [] }
evict cap entries (id ∷ queue) =
    let rest = evict cap (without id entries) queue in
    if ltb cap (length entries) then rest else record { entries = entries; closed = id ∷ queue }

-- The first critical section: the lifecycle of an open connection ends, and is told apart from one
-- that has ended before.
abbrev pub end_lifecycle : ℕ → ConnectionLifecycle → Option ConnectionLifecycle
end_lifecycle now (opened since) = some (closed since now)
end_lifecycle now (closed since ended) = none

-- Behind it: one live connection less, and the registry.
pub retire : ℕ → Metrics → Metrics
retire id m = record m {
  conns_live = fetch_sub_one m.conns_live;
  conns = evict m.connection_cap m.conns.entries (m.conns.closed ++ id ∷ []);
}

abbrev pub close_found : ℕ → ℕ → Option ConnectionLifecycle → Metrics → Metrics
close_found now id none m = m
close_found now id (some ended) m =
    retire id (record m { store = update id (λ c. record c { lifecycle = ended }) m.store })

abbrev pub ending : ℕ → Option ConnStats → Option ConnectionLifecycle
ending now none = none
ending now (some c) = end_lifecycle now c.lifecycle

-- A handle always has its record; that an id has none is not a case of the program.
pub close_connection : ℕ → ℕ → Metrics → Metrics
close_connection now id m = close_found now id (ending now (find id m.store)) m

pub totals : Metrics → RateSample
totals m = record {
  msgs_in = m.msgs_in;
  msgs_out = m.msgs_out;
  bytes_in = m.bytes_in;
  bytes_out = m.bytes_out;
}

-- `saturating_sub` is the subtraction of ℕ.
abbrev pub rate_between : RateSample → RateSample → RateSample
rate_between now before = record {
  msgs_in = now.msgs_in - before.msgs_in;
  msgs_out = now.msgs_out - before.msgs_out;
  bytes_in = now.bytes_in - before.bytes_in;
  bytes_out = now.bytes_out - before.bytes_out;
}

-- The loop `while samples.len() > rate_history { pop_front }`.
pub trim : ℕ → List RateSample → List RateSample
trim limit [] = []
trim limit (s ∷ samples) =
    let rest = trim limit samples in if ltb limit (length (s ∷ samples)) then rest else s ∷ samples

pub sample_rates : Metrics → Metrics × RateSample
sample_rates m =
    let sample = rate_between (totals m) m.rates.previous in
    let samples =
      if m.rate_history == 0
      then m.rates.samples
      else trim m.rate_history (m.rates.samples ++ sample ∷ []) in
    (record m { rates = record { previous = totals m; samples = samples } }, sample)

pub record MetricsSummary : Type 0 where
  pub conns_opened : ℕ
  pub conns_live : ℕ
  pub total : RateSample
  pub rates : List RateSample

pub summary : Metrics → MetricsSummary
summary m = record {
  conns_opened = m.conns_opened;
  conns_live = m.conns_live;
  total = totals m;
  rates = m.rates.samples;
}

-- The records of the entries, `conns.entries.values()`.
pub retained : List ConnStats → List ℕ → List ConnStats
retained store [] = []
retained store (id ∷ entries) =
    let rest = retained store entries in elim (find id store) [ none ↦ rest | some c ↦ c ∷ rest ]

-- `sort_unstable_by_key(|conn| conn.id)`.
pub insert_by_id : ConnStats → List ConnStats → List ConnStats
insert_by_id c [] = c ∷ []
insert_by_id c (d ∷ l) =
    let rest = insert_by_id c l in if leb c.id d.id then c ∷ d ∷ l else d ∷ rest

pub sort_by_id : List ConnStats → List ConnStats
sort_by_id [] = []
sort_by_id (c ∷ l) = insert_by_id c (sort_by_id l)

pub snapshot : Metrics → MetricsSummary × List ConnStats
snapshot m = (summary m, sort_by_id (retained m.store m.conns.entries))
