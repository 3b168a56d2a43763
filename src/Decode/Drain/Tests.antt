-- ===== src/Decode/Drain/Tests.antt =====
-- Draining at a buffer of one-byte messages.
use tapgres.Prelude.{◌≡◌, some, [], ◌∷◌}
use tapgres.Direction.{Role, new}
use tapgres.Decode.Drain.{Drain, default_outcome, drain_direction}
use tapgres.Decode.Drain.Total.{Drained, drain_direction-Drained}
use tapgres.Decode.Drain.Sample.{wire, wire-Documented, clock, context, local}

abbrev waiting : Drain
waiting = record {
  dir = record (new context Role.client (local 40000)) { rxbuf = 1 ∷ 2 ∷ 0 ∷ 3 ∷ [] };
  outcome = default_outcome;
  log = [];
}

drain_direction-Drained_example :
    (r : Drain) × (drain_direction wire clock waiting ≡ some r) × Drained waiting r
drain_direction-Drained_example = drain_direction-Drained wire clock wire-Documented waiting
