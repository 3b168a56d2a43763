-- ===== src/Decode/Emit/Counts.antt =====
-- How many messages and lines a log holds.
use tapgres.Prelude.{ℕ, suc, ◌+◌, ◌≡◌, none, Option, [], ◌∷◌, ◌++◌, arith}
use tapgres.Event.{Text, DisplayMessage, message, line, status, SocketAddr, EventDetail}
use tapgres.Direction.{Role}
use tapgres.Decode.Emit.{Clock, Log, emit_with_detail, warn, out}

-- The decoded messages of a log, and its lines.
unfoldable pub message_count : Log → ℕ
message_count [] = 0
message_count (message m d ∷ log) = suc (message_count log)
message_count (line t ∷ log) = message_count log
message_count (status t ∷ log) = message_count log

unfoldable pub line_count : Log → ℕ
line_count [] = 0
line_count (message m d ∷ log) = line_count log
line_count (line t ∷ log) = suc (line_count log)
line_count (status t ∷ log) = line_count log

pub message_count-append : (l r : Log) → message_count (l ++ r) ≡ message_count l + message_count r
unfolding message_count
message_count-append [] r = omega arith
message_count-append (message m d ∷ l) r = omega (arith, message_count-append l r)
message_count-append (line t ∷ l) r = message_count-append l r
message_count-append (status t ∷ l) r = message_count-append l r

pub line_count-append : (l r : Log) → line_count (l ++ r) ≡ line_count l + line_count r
unfolding line_count
line_count-append [] r = omega arith
line_count-append (message m d ∷ l) r = line_count-append l r
line_count-append (line t ∷ l) r = omega (arith, line_count-append l r)
line_count-append (status t ∷ l) r = line_count-append l r

-- One message more.
pub record Grown (before after : Log) : Type 0 where
  pub messages : message_count after ≡ message_count before + 1
  pub lines : line_count after ≡ line_count before

pub Grown-append :
    (log : Log) (m : DisplayMessage) (detail : Option EventDetail)
    → Grown log (log ++ message m detail ∷ [])
unfolding message_count line_count
Grown-append log m detail = record {
  messages = message_count-append log (message m detail ∷ []);
  lines = omega (arith, line_count-append log (message m detail ∷ []));
}

module _ (clock : Clock) where
  pub emit-Grown :
      (role : Role) (a : SocketAddr) (kind text : Text) (detail : Option EventDetail) (log : Log)
      → Grown log (emit_with_detail clock role a kind text detail log)
  unfolding emit_with_detail
  emit-Grown role a kind text detail log = Grown-append log _ detail

  pub warn-Grown :
      (role : Role) (a : SocketAddr) (msg : Text) (log : Log)
      → Grown log (warn clock role a msg log)
  unfolding warn
  warn-Grown role a msg log = Grown-append log _ none

pub out-counts :
    (t : Text) (log : Log)
    → (message_count (out t log) ≡ message_count log)
      × (line_count (out t log) ≡ line_count log + 1)
unfolding message_count line_count
out-counts t log = (
  omega (arith, message_count-append log (line t ∷ [])),
  omega (arith, line_count-append log (line t ∷ [])),
)
