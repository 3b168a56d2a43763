-- ===== src/Capture/Loop.antt =====
-- The capture takes every frame, and keeps the table in order.
use tapgres.Prelude.{◌%◌, ℕ, ◌+◌, ◌≤◌, ◌≡◌, length}
use tapgres.Outcome.{Outcome}
use tapgres.State.{Metrics, u64_mod, with_limits}
use tapgres.State.Counts.{one_if}
use tapgres.State.Reach.{Reach}
use tapgres.Decode.Emit.Counts.{message_count}
use tapgres.ConnTable.{ConnTable}
use tapgres.ConnTable.Entries.{total, unclosed}
use tapgres.ConnTable.Tracks.{Tracks}
use tapgres.ConnTable.Advance.{Advance}

-- What a stretch of the capture comes to, with `n` packets or fewer.
record Went (n : ℕ) (t u : ConnTable) : Type 0 where
  tracks : Tracks u
  reach : Reach t.shared.metrics u.shared.metrics
  opened : length u.shared.metrics.store ≤ n + length t.shared.metrics.store

-- A run of the capture with fresh metrics: the table in order, and the gauge of live connections at the
-- number of its entries that are not closed.
pub record Captures (limit history : ℕ) (t : ConnTable) : Type 0 where
  pub tracks : Tracks t
  pub reach : Reach (with_limits limit history) t.shared.metrics
  pub live : t.shared.metrics.conns_live ≡ total unclosed t.map
  pub counted :
      (t.shared.metrics.msgs_in + t.shared.metrics.msgs_out) % u64_mod
      ≡ message_count t.shared.log % u64_mod
