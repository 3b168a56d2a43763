-- ===== src/ConnTable.antt =====
-- src/flow.rs `ConnKey` and `ConnTable`: the connections seen on the wire.
pub mod Entries
pub mod Keys
pub mod Tracks
pub mod Advance
pub mod Others
mod Tests
use tapgres.Prelude.{
  ℕ, Bool, true, false, not, ◌&&◌, Option, none, some, List, [], ◌∷◌, ◌++◌, length, ◌==◌,
  if◌then◌else◌,
}
use tapgres.Connection
use tapgres.Event.{Text, SocketAddr}
use tapgres.Filter.{codes, ip_eq}
use tapgres.Decode.{show}
use tapgres.Net.{TcpSegment}
use tapgres.State.{Metrics, open_connection, close_connection}
use tapgres.Decode.Emit.{Log, out}
use tapgres.Connection.{Env, Shared, Connection}

pub record ConnKey : Type 0 where
  pub client : SocketAddr
  pub server : SocketAddr

abbrev pub Entries : Type 0
Entries = List (ConnKey × Connection)

pub record ConnTable : Type 0 where
  pub map : Entries
  pub shared : Shared

-- ConnTable::with_metrics; `log` has what was delivered before.
abbrev pub with_metrics : Metrics → Log → ConnTable
with_metrics metrics log = record { map = []; shared = record { metrics = metrics; log = log } }

abbrev pub addr_eq : SocketAddr → SocketAddr → Bool
addr_eq a b = ip_eq a.ip b.ip && a.port == b.port

abbrev pub key_eq : ConnKey → ConnKey → Bool
key_eq j k = addr_eq j.client k.client && addr_eq j.server k.server

-- `HashMap::get`, `insert` and `remove`.
unfoldable pub get : ConnKey → Entries → Option Connection
get k [] = none
get k ((j, c) ∷ m) = if key_eq j k then some c else get k m

unfoldable pub insert : ConnKey → Connection → Entries → Entries
insert k c [] = (k, c) ∷ []
insert k c ((j, d) ∷ m) =
    let rest = insert k c m in if key_eq j k then (j, c) ∷ m else (j, d) ∷ rest

unfoldable pub remove : ConnKey → Entries → Entries
remove k [] = []
remove k ((j, d) ∷ m) = let rest = remove k m in if key_eq j k then m else (j, d) ∷ rest

-- Which endpoint is the client, by which of them has the watched port.
abbrev pub classify : ℕ → TcpSegment → Option ConnKey
classify pg_port seg =
    let src : SocketAddr = record { ip = seg.src; port = seg.src_port } in
    let dst : SocketAddr = record { ip = seg.dst; port = seg.dst_port } in
    if seg.dst_port == pg_port
    then some (record { client = src; server = dst })
    else if seg.src_port == pg_port
    then some (record { client = dst; server = src })
    else none

abbrev pub should_open : TcpSegment → Option Connection → Bool
should_open seg none = true
should_open seg (some c) = seg.syn && c.metrics_closed

module _ (env : Env) where
  abbrev pub say : Text → Shared → Shared
  say text s = record s {
    log = out (codes "[" ++ (env.clock (length s.log)).display_time ++ codes "] " ++ text) s.log;
  }

  abbrev pub address : SocketAddr → Text
  address a = env.show_ip a.ip ++ codes ":" ++ show a.port

  abbrev pub opening : ConnKey → ℕ → Text
  opening key pg_port =
      codes "=== new connection  "
      ++ address key.client
      ++ codes "  ->  "
      ++ address key.server
      ++ codes "  (port "
      ++ show pg_port
      ++ codes ") ==="

  -- The block under `if should_open`.
  pub open_entry : ℕ → ConnKey → ConnTable → ConnTable
  open_entry pg_port key t =
      let said = say (opening key pg_port) t.shared in
      let (metrics, stats) =
        open_connection (env.instant (length said.log)) key.client key.server false said.metrics in
      record {
        map = insert key (Connection.new env.default_context key.client stats) t.map;
        shared = record said { metrics = metrics };
      }

  abbrev pub close_record : Connection → Shared → Shared
  close_record c s = record s {
    metrics = close_connection (env.instant (length s.log)) c.stats s.metrics;
  }

  -- `if let Some(conn) = self.map.get_mut(&key) { conn.handle(..) }`; the connection is returned too.
  abbrev pub handled :
      ConnKey → ConnTable → Option (Connection × Shared) → Option (Connection × ConnTable)
  handled key t none = none
  handled key t (some (c, s)) = some (c, record { map = insert key c t.map; shared = s })

  abbrev pub handle_entry :
      ℕ → TcpSegment → ConnKey → ConnTable → Connection → Option (Connection × ConnTable)
  handle_entry pg_port seg key t c = handled key t (Connection.handle env pg_port seg c t.shared)

  -- `if let Some(conn) = self.map.remove(&key) { self.metrics.close_connection(..) }`.
  abbrev pub remove_entry : ConnKey → ConnTable → Option Connection → ConnTable
  remove_entry key t none = t
  remove_entry key t (some c) = record { map = remove key t.map; shared = close_record c t.shared }

  -- The block under `if seg.rst`, behind the connection's handling.
  pub reset_entry : ConnKey → ConnTable → ConnTable
  reset_entry key t =
      remove_entry key (record t { shared = say (codes "=== connection reset (RST) ===") t.shared })
        (get key t.map)

  -- The block under `if seg.fin && !conn.metrics_closed`.
  pub finish_entry : ConnKey → Connection → ConnTable → ConnTable
  finish_entry key c t = record {
    map = insert key (record c { metrics_closed = true }) t.map;
    shared = close_record c (say (codes "=== connection closed (FIN) ===") t.shared);
  }

  abbrev pub after_handle :
      TcpSegment → ConnKey → Option (Connection × ConnTable) → Option ConnTable
  after_handle seg key none = none
  after_handle seg key (some (c, t)) = some (
      if seg.rst
      then reset_entry key t
      else if seg.fin && not c.metrics_closed
      then finish_entry key c t
      else t)

  -- The rest of `handle`, behind `should_open`.
  abbrev pub dispatch : ℕ → TcpSegment → ConnKey → ConnTable → Option Connection → Option ConnTable
  dispatch pg_port seg key t none = some (if seg.rst then reset_entry key t else t)
  dispatch pg_port seg key t (some c) = after_handle seg key (handle_entry pg_port seg key t c)

  abbrev pub handle_key : ℕ → TcpSegment → ConnKey → ConnTable → Option ConnTable
  handle_key pg_port seg key t =
      let ready = if should_open seg (get key t.map) then open_entry pg_port key t else t in
      dispatch pg_port seg key ready (get key ready.map)

  -- ConnTable::handle; none says that a drain ran out of fuel.
  pub handle : ℕ → TcpSegment → ConnTable → Option ConnTable
  handle pg_port seg t = elim (classify pg_port seg) [
    | none ↦ some t
    | some key ↦ handle_key pg_port seg key t
  ]
