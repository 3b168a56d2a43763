-- ===== src/State/Reach.antt =====
-- Every sequence of the operations, in whatever order sources and threads make them.
use tapgres.Prelude.{ℕ, suc, ◌<◌, Bool, refl}
use tapgres.Event.{SocketAddr}
use tapgres.State.{
  Metrics, TrafficDirection, in_bound, out_bound, u64_mod, with_limits, open_connection,
  record_messages, set_encrypted, close_connection, sample_rates, add_in, add_out,
}
use tapgres.State.Counts.{id_count}
use tapgres.State.Registry.{IsValid, IsValid-with_limits, IsValid-update, open_connection-IsValid}
use tapgres.State.Closing.{close_connection-IsValid}

-- One operation. Ids are handed out as long as they fit 64 bits, and a handle has a record.
pub data Step : Metrics → Metrics → Type 0 where
  opens :
      (now : ℕ) (a b : SocketAddr) (encrypted : Bool) (m : Metrics)
      → suc m.next_conn_id < u64_mod
      → Step m (open_connection now a b encrypted m).0
  records :
      (id : ℕ) (dir : TrafficDirection) (n bytes : ℕ) (m : Metrics)
      → 0 < id_count id m.store
      → Step m (record_messages id dir n bytes m)
  encrypts : (id : ℕ) (encrypted : Bool) (m : Metrics) → Step m (set_encrypted id encrypted m)
  closes : (now id : ℕ) (m : Metrics) → Step m (close_connection now id m)
  samples : (m : Metrics) → Step m (sample_rates m).0

pub data Reach (s : Metrics) : Metrics → Type 0 where
  here : Reach s s
  next : {m n : Metrics} → Reach s m → Step m n → Reach s n

pub Reach-trans : {m n p : Metrics} → Reach m n → Reach n p → Reach m p
Reach-trans r here = r
Reach-trans r (next q st) = next (Reach-trans r q) st

record_messages-IsValid :
    (id : ℕ) (dir : TrafficDirection) (n bytes : ℕ) (m : Metrics)
    → IsValid m
    → IsValid (record_messages id dir n bytes m)
unfolding record_messages
record_messages-IsValid id in_bound n bytes m v =
    IsValid-update m _ id (add_in n bytes) (record { id = λ c. refl; lifecycle = λ c. refl }) refl
      refl refl refl refl v
record_messages-IsValid id out_bound n bytes m v =
    IsValid-update m _ id (add_out n bytes) (record { id = λ c. refl; lifecycle = λ c. refl }) refl
      refl refl refl refl v

set_encrypted-IsValid :
    (id : ℕ) (encrypted : Bool) (m : Metrics) → IsValid m → IsValid (set_encrypted id encrypted m)
unfolding set_encrypted
set_encrypted-IsValid id encrypted m v =
    IsValid-update m _ id (λ c. record c { encrypted = encrypted })
      (record { id = λ c. refl; lifecycle = λ c. refl }) refl refl refl refl refl v

sample_rates-IsValid : (m : Metrics) → IsValid m → IsValid (sample_rates m).0
unfolding sample_rates
sample_rates-IsValid m v = record {
  holds = v.holds;
  known = v.known;
  unique = v.unique;
  fresh = v.fresh;
  next = v.next;
  room = v.room;
  opened_all = v.opened_all;
  live = v.live;
  size = v.size;
}

pub Step-IsValid : {m n : Metrics} → Step m n → IsValid m → IsValid n
Step-IsValid (opens now a b encrypted m room) v = open_connection-IsValid now a b encrypted m room v
Step-IsValid (records id dir n bytes m known) v = record_messages-IsValid id dir n bytes m v
Step-IsValid (encrypts id encrypted m) v = set_encrypted-IsValid id encrypted m v
Step-IsValid (closes now id m) v = close_connection-IsValid now id m v
Step-IsValid (samples m) v = sample_rates-IsValid m v

-- From a fresh store with any limits, after any operations, the registry retains each open
-- connection once and each closed one in the queue once and nothing else, ids are unique, and the
-- counters of live and opened connections are exact; ids are assumed to fit 64 bits, and messages to
-- be recorded on opened connections.
pub Reach-IsValid : (cap history : ℕ) {m : Metrics} → Reach (with_limits cap history) m → IsValid m
Reach-IsValid cap history here = IsValid-with_limits cap history
Reach-IsValid cap history (next r st) = Step-IsValid st (Reach-IsValid cap history r)

pub Reach-keeps : {m n : Metrics} → Reach m n → IsValid m → IsValid n
Reach-keeps here v = v
Reach-keeps (next r st) v = Step-IsValid st (Reach-keeps r v)
