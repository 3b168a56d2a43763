-- ===== src/ConnTable/Tracks.antt =====
-- The table's invariant: the metrics hold a record open for each entry that is not closed, and no other.
use tapgres.Prelude.{
  ℕ, suc, ◌≤◌, ◌<◌, ◌≡◌, refl, ap, ◌∙◌, true, false, not, Option, none, some, arith, if◌then◌else◌,
  ◌==◌, ==_refl, length,
}
use tapgres.Event.{Text}
use tapgres.Filter.{codes}
use tapgres.State.{Metrics, u64_mod, open_connection, close_connection}
use tapgres.State.Counts.{one_if, id_count, open_count, total_open, open_count-le-id_count}
use tapgres.State.Registry.{IsValid, open_connection-IsValid}
use tapgres.State.Closing.{close_connection-IsValid}
use tapgres.State.Effects.{
  messages, open_connection-OpenedRecord, open_connection-id, close_connection-ClosedRecord,
}
use tapgres.Decode.Emit.{Log, out}
use tapgres.Decode.Emit.Counts.{out-counts}
use tapgres.Connection.{new, Env, Shared, Connection}
use tapgres.Connection.Handled.{Agree, Handled}
use tapgres.ConnTable.{
  ConnKey, ConnTable, get, insert, remove, say, open_entry, reset_entry, remove_entry, finish_entry,
  close_record, opening,
}
use tapgres.ConnTable.Entries.{
  total, weight, total-insert, total-remove, of_record, unclosed, unclosed_of,
  unclosed_of-le-of_record,
}

pub record Tracks (t : ConnTable) : Type 0 where
  pub valid : IsValid t.shared.metrics
  pub agree : Agree t.shared.metrics t.shared.log
  pub known : (k : ℕ) → total (of_record k) t.map ≤ id_count k t.shared.metrics.store
  pub opens : (k : ℕ) → open_count k t.shared.metrics.store ≡ total (unclosed_of k) t.map
  pub live : total_open t.shared.metrics.store ≡ total unclosed t.map

-- Neither a line nor an operation that records no message changes the agreement.
Agree-line :
    (m n : Metrics) (text : Text) (log : Log)
    → messages n ≡ messages m
    → Agree m log
    → Agree n (out text log)
Agree-line m n text log e a = omega (arith, a, e, (out-counts text log).0)

unclosed_of-same :
    (k : ℕ) (c d : Connection) {s t : Shared} → Handled c s d t → unclosed_of k d ≡ unclosed_of k c
unclosed_of-same k c d handled =
    ap (λ j. if j == k then unclosed d else 0) handled.stats
    ∙ ap (λ b. if c.stats == k then one_if (not b) else 0) handled.metrics_closed

weight-unclosed_of :
    (k : ℕ) (o : Option Connection) → weight unclosed o ≡ 0 → weight (unclosed_of k) o ≡ 0
weight-unclosed_of k none e = refl
weight-unclosed_of k (some c) e = ground (arith, e)

module _ (env : Env) (key : ConnKey) (t : ConnTable) (h : Tracks t) where
  opened-Tracks :
      (now : ℕ) (text : Text) (id : ℕ)
      → suc t.shared.metrics.next_conn_id < u64_mod
      → weight unclosed (get key t.map) ≡ 0
      → id ≡ t.shared.metrics.next_conn_id
      → Tracks (record {
        map = insert key (new env.default_context key.client id) t.map;
        shared = record {
          metrics = (open_connection now key.client key.server false t.shared.metrics).0;
          log = out text t.shared.log;
        };
      })
  opened-Tracks now text id room vacant same =
      let m = t.shared.metrics in
      let opened = open_connection-OpenedRecord now key.client key.server false m in
      let c = new env.default_context key.client id in
      record {
        valid = open_connection-IsValid now key.client key.server false m room h.valid;
        agree =
            Agree-line m (open_connection now key.client key.server false m).0 text t.shared.log
              opened.messages_of h.agree;
        known = λ k. omega (
          arith,
          h.known k,
          total-insert (of_record k) key c t.map,
          opened.ids k,
          ap (λ j. one_if (j == k)) same,
        );
        opens = λ k. omega (
          arith,
          h.opens k,
          total-insert (unclosed_of k) key c t.map,
          opened.opens k,
          ap (λ j. one_if (j == k)) same,
          weight-unclosed_of k (get key t.map) vacant,
        );
        live = omega (arith, h.live, total-insert unclosed key c t.map, opened.total);
      }

  -- An entry opens where there is none, or a closed one.
  pub open_entry-Tracks :
      (pg_port : ℕ)
      → suc t.shared.metrics.next_conn_id < u64_mod
      → weight unclosed (get key t.map) ≡ 0
      → Tracks (open_entry env pg_port key t)
  unfolding open_entry
  open_entry-Tracks pg_port room vacant =
      let text = opening env key pg_port in
      let now = env.instant (length (say env text t.shared).log) in
      opened-Tracks now _ _ room vacant
        (open_connection-id now key.client key.server false t.shared.metrics)

  pub finish_entry-Tracks :
      (c : Connection)
      → get key t.map ≡ some c
      → c.metrics_closed ≡ false
      → Tracks (finish_entry env key c t)
  unfolding finish_entry
  finish_entry-Tracks c found not_yet =
      let s = say env (codes "=== connection closed (FIN) ===") t.shared in
      let now = env.instant (length s.log) in
      let done = record c { metrics_closed = true } in
      let m = t.shared.metrics in
      let closed = close_connection-ClosedRecord now c.stats m h.valid in
      record {
        valid = close_connection-IsValid now c.stats m h.valid;
        agree =
            Agree-line m (close_connection now c.stats m) _ t.shared.log closed.messages_of h.agree;
        known = λ k. ground (
          arith,
          h.known k,
          total-insert (of_record k) key done t.map,
          ap (weight (of_record k)) found,
          closed.ids k,
        );
        opens = λ k. ground (
          arith,
          h.opens k,
          total-insert (unclosed_of k) key done t.map,
          ap (weight (unclosed_of k)) found,
          closed.opens k,
          open_count-le-id_count k m.store,
          h.valid.unique k,
        );
        live = ground (
          arith,
          h.live,
          total-insert unclosed key done t.map,
          ap (weight unclosed) found,
          closed.total,
          h.opens c.stats,
          total-insert (unclosed_of c.stats) key done t.map,
          ap (weight (unclosed_of c.stats)) found,
          open_count-le-id_count c.stats m.store,
          h.valid.unique c.stats,
          ==_refl c.stats,
        );
      }

  removed-Tracks :
      (c : Connection)
      → get key t.map ≡ some c
      → Tracks (record {
        map = remove key t.map;
        shared = close_record env c (say env (codes "=== connection reset (RST) ===") t.shared);
      })
  removed-Tracks c found =
      let s = say env (codes "=== connection reset (RST) ===") t.shared in
      let now = env.instant (length s.log) in
      let m = t.shared.metrics in
      let closed = close_connection-ClosedRecord now c.stats m h.valid in
      let left = remove key t.map in
      record {
        valid = close_connection-IsValid now c.stats m h.valid;
        agree =
            Agree-line m (close_connection now c.stats m) _ t.shared.log closed.messages_of h.agree;
        known = λ k. omega (arith, h.known k, total-remove (of_record k) key t.map, closed.ids k);
        opens = λ k. ground (
          arith,
          h.opens k,
          h.known k,
          h.valid.unique k,
          closed.opens k,
          total-remove (unclosed_of k) key t.map,
          total-remove (of_record k) key t.map,
          ap (weight (unclosed_of k)) found,
          ap (weight (of_record k)) found,
          unclosed_of-le-of_record k left,
        );
        live = ground (
          arith,
          h.live,
          h.opens c.stats,
          h.known c.stats,
          h.valid.unique c.stats,
          closed.total,
          total-remove unclosed key t.map,
          total-remove (unclosed_of c.stats) key t.map,
          total-remove (of_record c.stats) key t.map,
          ap (weight unclosed) found,
          ap (weight (unclosed_of c.stats)) found,
          ap (weight (of_record c.stats)) found,
          unclosed_of-le-of_record c.stats left,
          ==_refl c.stats,
        );
      }

  pub reset_entry-Tracks : Tracks (reset_entry env key t)
  unfolding reset_entry
  reset_entry-Tracks = go (get key t.map) refl
    where
      said : ConnTable
      said = record t { shared = say env (codes "=== connection reset (RST) ===") t.shared }

      go : (o : Option Connection) → get key t.map ≡ o → Tracks (remove_entry env key said o)
      go none e = record {
        valid = h.valid;
        agree = Agree-line t.shared.metrics t.shared.metrics _ t.shared.log refl h.agree;
        known = h.known;
        opens = h.opens;
        live = h.live;
      }
      go (some c) e = removed-Tracks c e

  pub Handled-Tracks :
      (c d : Connection) (s : Shared)
      → get key t.map ≡ some c
      → Handled c t.shared d s
      → IsValid s.metrics
      → Tracks (record { map = insert key d t.map; shared = s })
  Handled-Tracks c d s found handled valid = record {
    valid = valid;
    agree = handled.agree h.agree;
    known = λ k. omega (
      arith,
      h.known k,
      total-insert (of_record k) key d t.map,
      ap (weight (of_record k)) found,
      handled.metrics.same.ids k,
      ap (λ j. one_if (j == k)) handled.stats,
    );
    opens = λ k. omega (
      arith,
      h.opens k,
      total-insert (unclosed_of k) key d t.map,
      ap (weight (unclosed_of k)) found,
      handled.metrics.same.opens k,
      unclosed_of-same k c d handled,
    );
    live = omega (
      arith,
      h.live,
      total-insert unclosed key d t.map,
      ap (weight unclosed) found,
      handled.metrics.same.total,
      ap (λ b. one_if (not b)) handled.metrics_closed,
    );
  }
