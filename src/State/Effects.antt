-- ===== src/State/Effects.antt =====
-- What each operation does to the counts of records, as its callers see it.
use tapgres.Prelude.{
  ℕ, ◌+◌, ◌≡◌, refl, ap, ◌∙◌, ◌%◌, length, inl, inr, Bool, true, false, arith, if◌then◌else◌, ◌==◌,
}
use tapgres.Event.{SocketAddr}
use tapgres.State.{
  fetch_add, u64_mod, ConnStats, Metrics, TrafficDirection, in_bound, out_bound, find, update,
  open_connection, record_messages, set_encrypted, close_connection, retire, add_in, add_out,
}
use tapgres.State.Counts.{
  one_if, id_count, open_count, total_open, Keeps, id_count-update, open_count-update,
  total_open-update, close_with, open_count-close, total_open-close,
}
use tapgres.State.Registry.{IsValid, length-update}
use tapgres.State.Closing.{ending-cases, nothing_open}

abbrev pub messages : Metrics → ℕ
messages m = m.msgs_in + m.msgs_out

-- The counts of a store, from those of another: the same records, of which `id` has been closed, or
-- none.
pub record SameRecords (m n : Metrics) : Type 0 where
  pub ids : (k : ℕ) → id_count k n.store ≡ id_count k m.store
  pub opens : (k : ℕ) → open_count k n.store ≡ open_count k m.store
  pub total : total_open n.store ≡ total_open m.store
  pub next : n.next_conn_id ≡ m.next_conn_id
  pub size : length n.store ≡ length m.store

pub record ClosedRecord (id : ℕ) (m n : Metrics) : Type 0 where
  pub ids : (k : ℕ) → id_count k n.store ≡ id_count k m.store
  pub opens : (k : ℕ) → open_count k n.store ≡ (if id == k then 0 else open_count k m.store)
  pub total : total_open n.store + open_count id m.store ≡ total_open m.store
  pub next : n.next_conn_id ≡ m.next_conn_id
  pub size : length n.store ≡ length m.store
  pub messages_of : messages n ≡ messages m

pub record OpenedRecord (id : ℕ) (m n : Metrics) : Type 0 where
  pub ids : (k : ℕ) → id_count k n.store ≡ one_if (id == k) + id_count k m.store
  pub opens : (k : ℕ) → open_count k n.store ≡ one_if (id == k) + open_count k m.store
  pub total : total_open n.store ≡ 1 + total_open m.store
  pub next : n.next_conn_id ≡ fetch_add m.next_conn_id 1
  pub size : length n.store ≡ 1 + length m.store
  pub messages_of : messages n ≡ messages m

updated :
    (m n : Metrics) (k : ℕ) (f : ConnStats → ConnStats)
    → Keeps f
    → n.store ≡ update k f m.store
    → n.next_conn_id ≡ m.next_conn_id
    → SameRecords m n
updated m n k f same e e2 = record {
  ids = λ j. rw e (id_count-update f same.id k j m.store);
  opens = λ j. rw e (open_count-update f same k j m.store);
  total = rw e (total_open-update f same k m.store);
  next = e2;
  size = ap length e ∙ length-update k f m.store;
}

pub record_messages-SameRecords :
    (id : ℕ) (dir : TrafficDirection) (n bytes : ℕ) (m : Metrics)
    → SameRecords m (record_messages id dir n bytes m)
unfolding record_messages
record_messages-SameRecords id in_bound n bytes m =
    updated m _ id (add_in n bytes) (record { id = λ c. refl; lifecycle = λ c. refl }) refl refl
record_messages-SameRecords id out_bound n bytes m =
    updated m _ id (add_out n bytes) (record { id = λ c. refl; lifecycle = λ c. refl }) refl refl

pub set_encrypted-SameRecords :
    (id : ℕ) (b : Bool) (m : Metrics) → SameRecords m (set_encrypted id b m)
unfolding set_encrypted
set_encrypted-SameRecords id b m =
    updated m _ id (λ c. record c { encrypted = b })
      (record { id = λ c. refl; lifecycle = λ c. refl }) refl refl

pub open_connection-OpenedRecord :
    (now : ℕ) (a b : SocketAddr) (encrypted : Bool) (m : Metrics)
    → OpenedRecord m.next_conn_id m (open_connection now a b encrypted m).0
unfolding open_connection id_count open_count total_open
open_connection-OpenedRecord now a b encrypted m = record {
  ids = λ k. refl;
  opens = λ k. ground arith;
  total = refl;
  next = refl;
  size = omega arith;
  messages_of = refl;
}

pub close_connection-ClosedRecord :
    (now id : ℕ) (m : Metrics) → IsValid m → ClosedRecord id m (close_connection now id m)
unfolding close_connection retire
close_connection-ClosedRecord now id m v = elim (ending-cases now (find id m.store)) [
  | inl e ↦
      let none_open : open_count id m.store ≡ 0 = nothing_open now id m.store (v.unique id) e in
      rw e (record {
        ids = λ k. refl;
        opens = λ k. ground arith;
        total = omega (arith, none_open);
        next = refl;
        size = refl;
        messages_of = refl;
      })
  | inr (since, c, found, open_c, e) ↦ rw e (record {
    ids = λ k. id_count-update (close_with since now) (λ c. refl) id k m.store;
    opens = λ k. open_count-close since now id k m.store;
    total = total_open-close since now id m.store;
    next = refl;
    size = length-update id (close_with since now) m.store;
    messages_of = refl;
  })
]

-- The id of a new connection is the next one, and the next one follows it.
pub open_connection-id :
    (now : ℕ) (a b : SocketAddr) (encrypted : Bool) (m : Metrics)
    → (open_connection now a b encrypted m).1 ≡ m.next_conn_id
unfolding open_connection
open_connection-id now a b encrypted m = refl

-- The counters of messages.
pub set_encrypted-messages :
    (b : Bool) (id : ℕ) (e : Bool) (m : Metrics)
    → messages (if b then set_encrypted id e m else m) ≡ messages m
unfolding set_encrypted
set_encrypted-messages true id e m = refl
set_encrypted-messages false id e m = refl

pub record_messages-messages :
    (id : ℕ) (dir : TrafficDirection) (n bytes : ℕ) (m : Metrics)
    → messages (record_messages id dir n bytes m) % u64_mod ≡ (messages m + n) % u64_mod
unfolding record_messages
record_messages-messages id in_bound n bytes m = omega arith
record_messages-messages id out_bound n bytes m = omega arith
