-- ===== src/State/Tests.antt =====
-- The metrics after concrete operations.
use tapgres.Prelude.{ℕ, ◌≤◌, ◌≡◌, refl, ◌⊎◌, false, [], ◌∷◌, arith, length}
use tapgres.Net.{v4}
use tapgres.Event.{SocketAddr}
use tapgres.State.{
  Metrics, with_limits, open_connection, record_messages, close_connection, sample_rates, in_bound,
  totals, rate_between, find, update, without, evict, retire, trim,
}
use tapgres.State.Counts.{open_count, id_count}
use tapgres.State.Registry.{IsValid}
use tapgres.State.Closing.{HoldsOpen, close_connection-bounded, close_connection_idem}
use tapgres.State.Reach.{Reach, here, next, opens, records, closes, samples, Reach-IsValid}
use tapgres.State.Totals.{Conserved, Reach-Conserved}
use tapgres.State.Rates.{sample_rates-window, Reach-limit}

abbrev local : ℕ → SocketAddr
local port = record { ip = v4 127 0 0 1; port = port }

-- Two connections, a message, and one of them closed, with room for one closed entry beside it.
abbrev opened_two : Metrics
opened_two =
    (open_connection 2 (local 2) (local 9) false
      (open_connection 1 (local 1) (local 9) false (with_limits 1 2)).0).0

abbrev busy : Metrics
busy = record_messages 1 in_bound 3 70 opened_two

abbrev done : Metrics
done = close_connection 5 1 busy

busy-Reach : Reach (with_limits 1 2) busy
unfolding open_connection id_count
busy-Reach =
    next
      (next (next here (opens 1 (local 1) (local 9) false _ (omega arith)))
        (opens 2 (local 2) (local 9) false _ (omega arith)))
      (records 1 in_bound 3 70 _ (omega arith))

done-Reach : Reach (with_limits 1 2) done
done-Reach = next busy-Reach (closes 5 1 busy)

Reach-IsValid_example : IsValid done
Reach-IsValid_example = Reach-IsValid 1 2 done-Reach

Reach-Conserved_example : Conserved done
Reach-Conserved_example = Reach-Conserved 1 2 done-Reach

close_connection-bounded_example : (length done.conns.entries ≤ 1) ⊎ HoldsOpen done
unfolding open_count open_connection record_messages update
close_connection-bounded_example =
    close_connection-bounded 5 1 busy (Reach-IsValid 1 2 busy-Reach) (omega arith)

close_connection_idem_example : close_connection 8 1 done ≡ done
close_connection_idem_example = close_connection_idem 5 8 1 busy

sample_rates-window_example :
    ((sample_rates done).1 ≡ rate_between (totals done) done.rates.previous)
    × ((sample_rates done).0.rates.previous ≡ totals done)
    × ((sample_rates done).0.rates.samples ≡ (sample_rates done).1 ∷ [])
unfolding open_connection record_messages close_connection sample_rates retire evict find update
    without totals trim
sample_rates-window_example = sample_rates-window done (omega arith)

Reach-limit_example : length (sample_rates done).0.rates.samples ≤ 2
unfolding sample_rates close_connection find record_messages update open_connection retire
Reach-limit_example = Reach-limit 1 2 (next done-Reach (samples done))

-- The closed connection is still within the cap with the open one when the cap is two, and goes
-- when it is one.
kept_ids : (done.conns.entries ≡ 2 ∷ []) × (done.conns_live ≡ 1) × (done.msgs_in ≡ 3)
unfolding open_connection record_messages close_connection retire evict find update without
kept_ids = (refl, refl, refl)
