-- ===== src/State/Totals.antt =====
-- The aggregate counters against the connections' own.
use tapgres.Prelude.{ℕ, ◌+◌, ◌%◌, ◌≡◌, refl, ap, Option, none, some, Bool, List, [], ◌∷◌, arith}
use tapgres.Event.{SocketAddr}
use tapgres.State.{
  ConnStats, ConnectionLifecycle, Metrics, TrafficDirection, in_bound, out_bound, u64_mod,
  with_limits, find, update, open_connection, record_messages, set_encrypted, close_connection,
  close_found, ending, retire, sample_rates, add_in, add_out, fetch_add, totals,
}
use tapgres.State.Counts.{id_count}
use tapgres.State.Registry.{IsValid}
use tapgres.State.Reach.{
  Step, opens, records, encrypts, closes, samples, Reach, here, next, Reach-IsValid,
}

-- A counter added up over every connection ever opened.
unfoldable pub sum : (ConnStats → ℕ) → List ConnStats → ℕ
sum f [] = 0
sum f (c ∷ l) = f c + sum f l

module _ (f : ConnStats → ℕ) (g : ConnStats → ConnStats) where
  sum-same :
      (k : ℕ) (l : List ConnStats)
      → ((c : ConnStats) → f (g c) ≡ f c)
      → sum f (update k g l) ≡ sum f l
  unfolding sum update
  sum-same k [] same = refl
  sum-same k (c ∷ l) same = ground (arith, same c, sum-same k l same)

  sum-none : (k : ℕ) (l : List ConnStats) → id_count k l ≡ 0 → sum f (update k g l) ≡ sum f l
  unfolding sum update id_count
  sum-none k [] e = refl
  sum-none k (c ∷ l) e = ground (arith, sum-none k l)

  sum-added :
      (n k : ℕ) (l : List ConnStats)
      → ((c : ConnStats) → f (g c) ≡ fetch_add (f c) n)
      → id_count k l ≡ 1
      → sum f (update k g l) % u64_mod ≡ (sum f l + n) % u64_mod
  unfolding sum update id_count
  sum-added n k [] adds e = ground arith
  sum-added n k (c ∷ l) adds e = ground (arith, adds c, sum-added n k l adds, sum-none k l)

-- Each aggregate is the sum of the connections' counters, modulo 2^64.
pub record Conserved (m : Metrics) : Type 0 where
  pub msgs_in : m.msgs_in ≡ sum (λ c. c.msgs_in) m.store % u64_mod
  pub msgs_out : m.msgs_out ≡ sum (λ c. c.msgs_out) m.store % u64_mod
  pub bytes_in : m.bytes_in ≡ sum (λ c. c.bytes_in) m.store % u64_mod
  pub bytes_out : m.bytes_out ≡ sum (λ c. c.bytes_out) m.store % u64_mod

-- A write that leaves the counters alone.
record Silent (g : ConnStats → ConnStats) : Type 0 where
  msgs_in : (c : ConnStats) → (g c).msgs_in ≡ c.msgs_in
  msgs_out : (c : ConnStats) → (g c).msgs_out ≡ c.msgs_out
  bytes_in : (c : ConnStats) → (g c).bytes_in ≡ c.bytes_in
  bytes_out : (c : ConnStats) → (g c).bytes_out ≡ c.bytes_out

Conserved-update :
    (m n : Metrics) (k : ℕ) (g : ConnStats → ConnStats)
    → Silent g
    → n.store ≡ update k g m.store
    → totals n ≡ totals m
    → Conserved m
    → Conserved n
unfolding totals
Conserved-update m n k g same e t c = record {
  msgs_in =
      rw (e, ap (λ x. x.msgs_in) t, sum-same (λ x. x.msgs_in) g k m.store same.msgs_in) c.msgs_in;
  msgs_out =
      rw (e, ap (λ x. x.msgs_out) t, sum-same (λ x. x.msgs_out) g k m.store same.msgs_out)
        c.msgs_out;
  bytes_in =
      rw (e, ap (λ x. x.bytes_in) t, sum-same (λ x. x.bytes_in) g k m.store same.bytes_in)
        c.bytes_in;
  bytes_out =
      rw (e, ap (λ x. x.bytes_out) t, sum-same (λ x. x.bytes_out) g k m.store same.bytes_out)
        c.bytes_out;
}

record_messages-Conserved :
    (id : ℕ) (dir : TrafficDirection) (n bytes : ℕ) (m : Metrics)
    → id_count id m.store ≡ 1
    → Conserved m
    → Conserved (record_messages id dir n bytes m)
unfolding record_messages
record_messages-Conserved id in_bound n bytes m u c = record {
  msgs_in =
      omega
        (arith, c.msgs_in, sum-added (λ x. x.msgs_in) (add_in n bytes) n id m.store (λ x. refl) u);
  msgs_out = rw (sum-same (λ x. x.msgs_out) (add_in n bytes) id m.store (λ x. refl)) c.msgs_out;
  bytes_in = omega (
    arith,
    c.bytes_in,
    sum-added (λ x. x.bytes_in) (add_in n bytes) bytes id m.store (λ x. refl) u,
  );
  bytes_out = rw (sum-same (λ x. x.bytes_out) (add_in n bytes) id m.store (λ x. refl)) c.bytes_out;
}
record_messages-Conserved id out_bound n bytes m u c = record {
  msgs_in = rw (sum-same (λ x. x.msgs_in) (add_out n bytes) id m.store (λ x. refl)) c.msgs_in;
  msgs_out =
      omega (
        arith,
        c.msgs_out,
        sum-added (λ x. x.msgs_out) (add_out n bytes) n id m.store (λ x. refl) u,
      );
  bytes_in = rw (sum-same (λ x. x.bytes_in) (add_out n bytes) id m.store (λ x. refl)) c.bytes_in;
  bytes_out = omega (
    arith,
    c.bytes_out,
    sum-added (λ x. x.bytes_out) (add_out n bytes) bytes id m.store (λ x. refl) u,
  );
}

close_found-Conserved :
    (now id : ℕ) (o : Option ConnectionLifecycle) (m : Metrics)
    → Conserved m
    → Conserved (close_found now id o m)
unfolding retire totals
close_found-Conserved now id none m c = c
close_found-Conserved now id (some ended) m c =
    Conserved-update m (close_found now id (some ended) m) id (λ x. record x { lifecycle = ended })
      (record {
        msgs_in = λ x. refl;
        msgs_out = λ x. refl;
        bytes_in = λ x. refl;
        bytes_out = λ x. refl;
      })
      refl refl c

close_connection-Conserved :
    (now id : ℕ) (m : Metrics) → Conserved m → Conserved (close_connection now id m)
unfolding close_connection
close_connection-Conserved now id m c =
    close_found-Conserved now id (ending now (find id m.store)) m c

open_connection-Conserved :
    (now : ℕ) (a b : SocketAddr) (encrypted : Bool) (m : Metrics)
    → Conserved m
    → Conserved (open_connection now a b encrypted m).0
unfolding open_connection sum
open_connection-Conserved now a b encrypted m c = record {
  msgs_in = omega (arith, c.msgs_in);
  msgs_out = omega (arith, c.msgs_out);
  bytes_in = omega (arith, c.bytes_in);
  bytes_out = omega (arith, c.bytes_out);
}

Step-Conserved : {m n : Metrics} → Step m n → IsValid m → Conserved m → Conserved n
unfolding set_encrypted sample_rates totals
Step-Conserved (opens now a b encrypted m room) v c =
    open_connection-Conserved now a b encrypted m c
Step-Conserved (records id dir n bytes m known) v c =
    record_messages-Conserved id dir n bytes m (omega (arith, known, v.unique id)) c
Step-Conserved (encrypts id encrypted m) v c =
    Conserved-update m (set_encrypted id encrypted m) id (λ x. record x { encrypted = encrypted })
      (record {
        msgs_in = λ x. refl;
        msgs_out = λ x. refl;
        bytes_in = λ x. refl;
        bytes_out = λ x. refl;
      })
      refl refl c
Step-Conserved (closes now id m) v c = close_connection-Conserved now id m c
Step-Conserved (samples m) v c = record {
  msgs_in = c.msgs_in;
  msgs_out = c.msgs_out;
  bytes_in = c.bytes_in;
  bytes_out = c.bytes_out;
}

-- From a fresh store with any limits, after any operations, each aggregate counter of messages and
-- bytes is the sum of that counter over every connection ever opened, evicted ones too, modulo
-- 2^64; ids are assumed to fit 64 bits, and messages to be recorded on opened connections.
pub Reach-Conserved :
    (cap history : ℕ) {m : Metrics} → Reach (with_limits cap history) m → Conserved m
unfolding sum
Reach-Conserved cap history here = record {
  msgs_in = refl;
  msgs_out = refl;
  bytes_in = refl;
  bytes_out = refl;
}
Reach-Conserved cap history (next r st) =
    Step-Conserved st (Reach-IsValid cap history r) (Reach-Conserved cap history r)
