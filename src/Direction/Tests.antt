-- ===== src/Direction/Tests.antt =====
-- Reassembly at concrete streams.
use tapgres.Prelude.{ℕ, ◌≤◌, ◌≡◌, refl, true, false, some, List, [], ◌∷◌, arith, take, All, flatten}
use tapgres.Net.{v4}
use tapgres.Bytes.{Bytes}
use tapgres.Event.{SocketAddr}
use tapgres.Direction.{
  DecodeContext, client, server, new, feed, lookup, feed_at, deliver, drain_ooo, insert, without,
}
use tapgres.Direction.InSync.{seq_of, reach, IsPiece, Delivered, feed-Delivered}
use tapgres.Direction.Reassembly.{
  feed_all, opened, numbered, opened-Delivered, reassembly_prefix, reassembly_in_order,
}

abbrev local : ℕ → SocketAddr
local port = record { ip = v4 127 0 0 1; port = port }

abbrev ctx : DecodeContext
ctx = record {
  awaiting_frontend_ssl = true;
  awaiting_frontend_startup = true;
  awaiting_backend_ssl_response = false;
  awaiting_backend_gss_response = false;
}

abbrev stream : Bytes
stream = 1 ∷ 2 ∷ 3 ∷ 4 ∷ 5 ∷ []

-- The last two bytes arrive first, then the first three twice.
abbrev arrivals : List (ℕ × Bytes)
arrivals = (103, 4 ∷ 5 ∷ []) ∷ (100, 1 ∷ 2 ∷ 3 ∷ []) ∷ (100, 1 ∷ 2 ∷ 3 ∷ []) ∷ []

arrivals-IsPiece : All (IsPiece stream 100) arrivals
arrivals-IsPiece = (
  record { pos = 3; key = refl; fits = omega arith; bytes = refl },
  (
    record { pos = 0; key = refl; fits = omega arith; bytes = refl },
    (record { pos = 0; key = refl; fits = omega arith; bytes = refl }, tt),
  ),
)

reassembly_prefix_example :
    let d = feed_all (opened ctx client (local 40000) 99) arrivals in
    (n : ℕ) × (n ≤ 5) × (d.rxbuf ≡ take n stream) × (d.next_seq ≡ some (seq_of 100 n))
reassembly_prefix_example =
    reassembly_prefix ctx client (local 40000) 99 stream arrivals (omega arith) arrivals-IsPiece
      (omega arith, (omega arith, (omega arith, tt)))

reassembly_in_order_example :
    (feed_all
      (opened ctx server (local 40000) 4294967293)
      (numbered 4294967294 0 ((1 ∷ 2 ∷ []) ∷ (3 ∷ 4 ∷ 5 ∷ []) ∷ []))).rxbuf
    ≡ stream
unfolding flatten
reassembly_in_order_example =
    reassembly_in_order ctx server (local 40000) 4294967293 ((1 ∷ 2 ∷ []) ∷ (3 ∷ 4 ∷ 5 ∷ []) ∷ [])
      (omega arith) (omega arith, (omega arith, tt))

feed-Delivered_example :
    Delivered stream 100 0 []
      (omega arith)
      (reach (opened-Delivered ctx client (local 40000) 99 stream (omega arith)).sync.upto 0 2)
      (feed (opened ctx client (local 40000) 99) 100 false (1 ∷ 2 ∷ []))
feed-Delivered_example =
    feed-Delivered stream 100 0 [] (omega arith) (opened ctx client (local 40000) 99)
      (opened-Delivered ctx client (local 40000) 99 stream (omega arith)) 100 1 (2 ∷ [])
      (record { pos = 0; key = refl; fits = omega arith; bytes = refl })

-- A segment that bytes in order have partly overtaken stays in the buffer for good: all five bytes
-- have arrived and three are delivered.
overtaken :
    (feed_all
      (opened ctx client (local 40000) 99)
      ((102, 3 ∷ 4 ∷ 5 ∷ []) ∷ (100, 1 ∷ 2 ∷ 3 ∷ []) ∷ [])).rxbuf
    ≡ 1 ∷ 2 ∷ 3 ∷ []
unfolding feed_all feed new feed_at deliver drain_ooo insert lookup without
overtaken = refl

-- The drain loop takes what waits.
drained : (feed_all (opened ctx client (local 40000) 99) arrivals).rxbuf ≡ stream
unfolding feed_all feed new feed_at deliver drain_ooo insert lookup without
drained = refl
