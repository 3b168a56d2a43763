-- ===== src/Direction.antt =====
-- src/flow.rs `Role` and `Direction`: one direction of a connection, and the reassembly of its TCP
-- segments into an in-order byte stream.
pub mod Segments
pub mod InSync
pub mod Reassembly
mod Tests
use tapgres.Prelude.{
  ℕ, zero, suc, ◌+◌, ◌-◌, ◌^◌, Bool, true, false, Option, none, some, List, [], ◌∷◌, ◌++◌, ◌&&◌,
  ltb, leb, ◌==◌, if◌then◌else◌, length, drop,
}
use tapgres.Bytes.{Bytes, wrapping_add, wrapping_sub, u32_mod}
use tapgres.Event.{SocketAddr, FieldSummary}

pub data Role : Type 0 where
  client server : Role

-- The fields of pgwire's `DecodeContext` that the program reads and writes.
pub record DecodeContext : Type 0 where
  pub awaiting_frontend_ssl : Bool
  pub awaiting_frontend_startup : Bool
  pub awaiting_backend_ssl_response : Bool
  pub awaiting_backend_gss_response : Bool

-- `BTreeMap<u32, Vec<u8>>`, of which the program uses `insert` and `remove` alone.
abbrev pub Segments : Type 0
Segments = List (ℕ × Bytes)

pub lookup : ℕ → Segments → Option Bytes
lookup k [] = none
lookup k ((j, b) ∷ m) = if j == k then some b else lookup k m

pub without : ℕ → Segments → Segments
without k [] = []
without k ((j, b) ∷ m) = let rest = without k m in if j == k then rest else (j, b) ∷ rest

pub insert : ℕ → Bytes → Segments → Segments
insert k b m = (k, b) ∷ without k m

pub record Direction : Type 0 where
  pub role : Role
  pub client : SocketAddr
  pub next_seq : Option ℕ
  pub ooo : Segments
  pub rxbuf : Bytes
  pub ctx : DecodeContext
  pub row_desc : Option (List FieldSummary)

-- `default_context` is pgwire's `DecodeContext::default()`.
pub new : DecodeContext → Role → SocketAddr → Direction
new default_context role endpoint = record {
  role = role;
  client = endpoint;
  next_seq = none;
  ooo = [];
  rxbuf = [];
  ctx = default_context;
  row_desc = none;
}

pub for_decoding : DecodeContext → Role → SocketAddr → Direction
for_decoding default_context role endpoint =
    let d = new default_context role endpoint in
    record d { ctx = record (d.ctx) { awaiting_frontend_ssl = false } }

-- The `while let Some(b) = self.ooo.remove(&adv)` loop. Each round takes a segment out of the map,
-- so one more than the map's size is fuel enough.
pub drain_ooo : ℕ → Bytes → ℕ → Segments → Bytes × ℕ × Segments
drain_ooo zero rxbuf adv ooo = (rxbuf, adv, ooo)
drain_ooo (suc fuel) rxbuf adv ooo = elim (lookup adv ooo) [
  | none ↦ (rxbuf, adv, ooo)
  | some b ↦ drain_ooo fuel (rxbuf ++ b) (wrapping_add adv (length b)) (without adv ooo)
]

-- The end of `feed`: `chunk` starts at the next sequence number, `cur`.
pub deliver : Direction → ℕ → Bytes → Direction
deliver d cur chunk =
    let (rxbuf, adv, ooo) =
      drain_ooo (suc (length d.ooo)) (d.rxbuf ++ chunk) (wrapping_add cur (length chunk)) d.ooo in
    record d { rxbuf = rxbuf; next_seq = some adv; ooo = ooo }

-- `(-diff) as usize`, for a `diff` below 0 whose bit pattern is given. The negation of `i32::MIN`
-- wraps to itself, and sign-extends.
abbrev pub negated : ℕ → ℕ
negated diff = if diff == 2 ^ 31 then 2 ^ 64 - 2 ^ 31 else u32_mod - diff

-- `feed` behind its first lines: `next` is the sequence number that is wanted next.
pub feed_at : Direction → ℕ → ℕ → Bytes → Direction
feed_at d next seq bytes =
    let diff = wrapping_sub seq next in
    if ltb 0 diff && ltb diff (2 ^ 31)
    then record d { ooo = insert seq bytes d.ooo }
    else if diff == 0
    then deliver d seq bytes
    else if leb (length bytes) (negated diff)
    then d
    else deliver d (wrapping_add seq (negated diff)) (drop (negated diff) bytes)

abbrev pub anchor : Direction → ℕ → ℕ
anchor d seq = elim d.next_seq [ none ↦ seq | some n ↦ n ]

abbrev pub is_empty : Bytes → Bool
is_empty [] = true
is_empty (_ ∷ _) = false

pub feed : Direction → ℕ → Bool → Bytes → Direction
feed d seq syn bytes =
    let d₁ = if syn then record d { next_seq = some (wrapping_add seq 1) } else d in
    if is_empty bytes
    then d₁
    else (let next = anchor d₁ seq in feed_at (record d₁ { next_seq = some next }) next seq bytes)
