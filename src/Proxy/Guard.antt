-- ===== src/Proxy/Guard.antt =====
-- The guard closes a proxied connection on every path.
use tapgres.Prelude.{
  ℕ, suc, ◌<◌, ◌≡◌, refl, sym, ap, ◌∙◌, Bool, false, Option, none, some, [], arith, length, ==_refl,
  ◌==◌, Bool-cases, inl, inr,
}
use tapgres.Bytes.{Bytes}
use tapgres.Event.{Text, SocketAddr}
use tapgres.Direction.{client, server}
use tapgres.State.{Metrics, u64_mod, open_connection, close_connection}
use tapgres.State.Counts.{one_if, id_count, open_count, open_count-le-id_count}
use tapgres.State.Registry.{IsValid, open_connection-IsValid}
use tapgres.State.Closing.{close_connection-IsValid}
use tapgres.State.Reach.{Reach, Reach-trans, Reach-keeps, here, next, opens, closes}
use tapgres.State.Effects.{
  OpenedRecord, ClosedRecord, open_connection-OpenedRecord, close_connection-ClosedRecord,
  open_connection-id,
}
use tapgres.Decode.Drain.Total.{Documented}
use tapgres.Connection.{Env, Shared}
use tapgres.Connection.Handled.{Agree, Accounted, Accounted-refl}
use tapgres.Proxy.{
  Sockets, Opening, cancel, start, opening_of, setup_errors, new_pump, run_pumps, Ended, relayed,
  proxied, begun, dropped, handle_connection,
}
use tapgres.Proxy.Relay.{run_pumps-Relayed}

record Began (s : Shared) (o : Option Ended) : Type 0 where
  error : Option Text
  shared : Shared
  ends : o ≡ some (error, shared)
  metrics : Accounted s.metrics shared.metrics
  agree : Agree s.metrics s.log → Agree shared.metrics shared.log

unchanged : (s : Shared) (e : Option Text) → Began s (some (e, s))
unchanged s e = record {
  error = e;
  shared = s;
  ends = refl;
  metrics = Accounted-refl s.metrics;
  agree = λ a. a;
}

-- A connection that has come and gone: its record is open no more, and the others are as they were.
pub record CameAndWent (m n : Metrics) : Type 0 where
  pub valid : IsValid n
  pub live : n.conns_live ≡ m.conns_live
  pub opens : (k : ℕ) → open_count k n.store ≡ open_count k m.store
  pub reach : Reach m n

closed-CameAndWent :
    (m p n : Metrics) (id later : ℕ)
    → IsValid m
    → OpenedRecord m.next_conn_id m p
    → id ≡ m.next_conn_id
    → Reach m p
    → Accounted p n
    → IsValid n
    → CameAndWent m (close_connection later id n)
closed-CameAndWent m p n id later v opened same step a w =
    let closed = close_connection-ClosedRecord later id n w in
    let after = close_connection-IsValid later id n w in
    let own = ap (λ k. open_count k m.store) same in
    let none_yet : open_count id m.store ≡ 0 = omega (
      arith,
      own,
      open_count-le-id_count m.next_conn_id m.store,
      v.fresh m.next_conn_id (omega arith),
    ) in
    let mine : one_if (m.next_conn_id == id) ≡ 1 = ground (arith, same) in
    record {
      valid = after;
      live = omega (
        arith,
        after.live,
        v.live,
        closed.total,
        a.same.total,
        a.same.opens id,
        opened.total,
        opened.opens id,
        mine,
        none_yet,
      );
      opens = λ k. opens_as_before k closed none_yet;
      reach = Reach-trans step (next a.reach (closes later id n));
    }
  where
    opens_as_before :
        (k : ℕ)
        → ClosedRecord id n (close_connection later id n)
        → open_count id m.store ≡ 0
        → open_count k (close_connection later id n).store ≡ open_count k m.store
    opens_as_before k closed none_yet = elim (Bool-cases (id == k)) [
      | inl e ↦
          let eq : id ≡ k = ground (arith, e) in
          closed.opens k ∙ rw e (sym (ap (λ j. open_count j m.store) (sym eq) ∙ none_yet))
      | inr e ↦
          let f : (m.next_conn_id == k) ≡ false = ap (λ j. j == k) (sym same) ∙ e in
          closed.opens k ∙ rw e (a.same.opens k ∙ opened.opens k ∙ rw f (omega arith))
    ]

module _ (env : Env) (doc : Documented env.wire) (no_upstream_tls : Bool) (io : Sockets)
    (endpoint : SocketAddr) where
  relayed-Began :
      (id : ℕ) (initial : Bytes) (s : Shared)
      → 0 < id_count id s.metrics.store
      → Began s (
          relayed (
            run_pumps env id io.reads (record {
              client = new_pump env client endpoint initial;
              server = new_pump env server endpoint [];
              shared = s;
              to_server = initial;
              to_client = [];
            })))
  relayed-Began id initial s h =
      let (q, e, w) =
        run_pumps-Relayed env doc id io.reads
          (record {
            client = new_pump env client endpoint initial;
            server = new_pump env server endpoint [];
            shared = s;
            to_server = initial;
            to_client = [];
          })
          h in
      record {
        error = none;
        shared = q.shared;
        ends = ap relayed e;
        metrics = w.metrics;
        agree = w.agree;
      }

  proxied-Began :
      (id : ℕ) (head : Bytes) (o : Opening) (s : Shared)
      → 0 < id_count id s.metrics.store
      → Began s (proxied env no_upstream_tls io id endpoint head o s)
  proxied-Began id head cancel s h = unchanged s _
  proxied-Began id head (start client_tls initial) s h =
      go (setup_errors no_upstream_tls io head client_tls initial)
    where
      go :
          (e : Option Text)
          → Began s (elim e [
            | some x ↦ some (some x, s)
            | none ↦ relayed (
                run_pumps env id io.reads (record {
                  client = new_pump env client endpoint initial;
                  server = new_pump env server endpoint [];
                  shared = s;
                  to_server = initial;
                  to_client = [];
                }))
          ])
      go none = relayed-Began id initial s h
      go (some x) = unchanged s (some x)

  begun-Began :
      (id : ℕ) (head : Option Bytes) (s : Shared)
      → 0 < id_count id s.metrics.store
      → Began s (begun env no_upstream_tls io id endpoint head s)
  begun-Began id none s h = unchanged s none
  begun-Began id (some head) s h = proxied-Began id head (opening_of head) s h

  -- Whatever the sockets return, whichever step fails and whenever a pump ends, with a decoder as documented and while ids fit 64 bits, a
  -- proxied connection ends with its record closed: the gauge of live connections and the open records are as before, and the
  -- metrics have changed by operations of theirs alone.
  pub handle_connection-CameAndWent :
      (proxy : SocketAddr) (s : Shared)
      → IsValid s.metrics
      → suc s.metrics.next_conn_id < u64_mod
      → (e : Option Text) × (r : Shared) × (handle_connection env no_upstream_tls io endpoint proxy
            s
          ≡ some (e, r))
        × CameAndWent s.metrics r.metrics
  unfolding handle_connection
  handle_connection-CameAndWent proxy s v room =
      let now = env.instant (length s.log) in
      let m = s.metrics in
      let p = open_connection now endpoint proxy false m in
      let id = p.1 in
      let same = open_connection-id now endpoint proxy false m in
      let opened = open_connection-OpenedRecord now endpoint proxy false m in
      let valid = open_connection-IsValid now endpoint proxy false m room v in
      let b =
        begun-Began id io.head (record s { metrics = p.0 })
          (ground (arith, opened.ids id, same, ==_refl m.next_conn_id)) in
      let last = b.shared in
      let w = Reach-keeps b.metrics.reach valid in
      let later = env.instant (length last.log) in
      (
        b.error,
        record last { metrics = close_connection later id last.metrics },
        ap (dropped env id) b.ends,
        closed-CameAndWent m p.0 last.metrics id later v opened same
            (next here (opens now endpoint proxy false m room)) b.metrics w,
      )
