-- ===== src/State/Registry.antt =====
-- The registry's invariant: what is retained are the open connections and the closed ones in the
-- queue, each once; it holds of every reachable state.
use tapgres.Prelude.{
  ℕ, suc, ◌+◌, ◌≤◌, ◌<◌, ◌≡◌, refl, ap, ◌⊎◌, inl, inr, Bool, List, [], ◌∷◌, arith, ltb, ltb→le,
  length, Bool-cases, ==_refl,
}
use tapgres.Event.{SocketAddr}
use tapgres.State.{
  ConnStats, ConnRegistry, Metrics, u64_mod, without, update, with_limits, open_connection, evict,
}
use tapgres.State.Counts.{
  count, id_count, open_count, total_open, count-without, length-without, Keeps, id_count-update,
  open_count-update, total_open-update,
}

-- Over a store: what is retained is what is open and what is queued, at most once.
pub record Holds (is_live : ℕ → ℕ) (r : ConnRegistry) : Type 0 where
  pub retained : (k : ℕ) → count k r.entries ≡ is_live k + count k r.closed
  pub once : (k : ℕ) → is_live k + count k r.closed ≤ 1

pub record IsValid (m : Metrics) : Type 0 where
  pub holds : Holds (λ k. open_count k m.store) m.conns
  pub known : (k : ℕ) → open_count k m.store + count k m.conns.closed ≤ id_count k m.store
  pub unique : (k : ℕ) → id_count k m.store ≤ 1
  pub fresh : (k : ℕ) → m.next_conn_id ≤ k → id_count k m.store ≡ 0
  pub next : m.next_conn_id ≡ suc (length m.store)
  pub room : m.next_conn_id < u64_mod
  pub opened_all : m.conns_opened ≡ length m.store
  pub live : m.conns_live ≡ total_open m.store
  pub size : length m.conns.entries ≡ m.conns_live + length m.conns.closed

pub total_open-le-length : (l : List ConnStats) → total_open l ≤ length l
unfolding total_open
total_open-le-length [] = omega arith
total_open-le-length (c ∷ l) = ground (arith, total_open-le-length l)

pub length-update :
    (k : ℕ) (f : ConnStats → ConnStats) (l : List ConnStats) → length (update k f l) ≡ length l
unfolding update
length-update k f [] = refl
length-update k f (c ∷ l) = ap suc (length-update k f l)

-- Eviction keeps the registry in order and takes entries and queue down together; it stops within
-- the cap, or when nothing closed is left to evict.
pub record Evicted (is_live : ℕ → ℕ) (cap : ℕ) (before after : ConnRegistry) : Type 0 where
  pub holds : Holds is_live after
  pub balance :
      length after.entries + length before.closed ≡ length before.entries + length after.closed
  pub fewer : (k : ℕ) → count k after.closed ≤ count k before.closed
  pub bounded : (length after.entries ≤ cap) ⊎ (after.closed ≡ [])

pub evict-Evicted :
    (is_live : ℕ → ℕ) (cap : ℕ) (entries queue : List ℕ)
    → Holds is_live (record { entries = entries; closed = queue })
    → Evicted is_live cap (record { entries = entries; closed = queue }) (evict cap entries queue)
unfolding evict count
evict-Evicted is_live cap entries [] h = record {
  holds = h;
  balance = refl;
  fewer = λ k. omega arith;
  bounded = inr refl;
}
evict-Evicted is_live cap entries (id ∷ queue) h = elim (Bool-cases (ltb cap (length entries))) [
  | inl over ↦ rw over (popped (evict-Evicted is_live cap (without id entries) queue smaller))
  | inr fits ↦ rw fits (record {
    holds = h;
    balance = refl;
    fewer = λ k. omega arith;
    bounded = inl (ltb→le _ _ fits);
  })
]
  where
    smaller : Holds is_live (record { entries = without id entries; closed = queue })
    smaller = record {
      retained = λ k. ground (arith, count-without id k entries, h.retained k, h.once k);
      once = λ k. ground (arith, h.once k);
    }

    popped :
        Evicted is_live cap
          (record { entries = without id entries; closed = queue })
          (evict cap (without id entries) queue)
        → Evicted is_live cap
            (record { entries = entries; closed = id ∷ queue })
            (evict cap (without id entries) queue)
    popped e = record {
      holds = e.holds;
      balance =
          ground
            (arith, e.balance, length-without id entries, h.retained id, h.once id, ==_refl id);
      fewer = λ k. ground (arith, e.fewer k);
      bounded = e.bounded;
    }

pub IsValid-with_limits :
    (connection_cap rate_history : ℕ) → IsValid (with_limits connection_cap rate_history)
unfolding count id_count open_count total_open
IsValid-with_limits connection_cap rate_history = record {
  holds = record { retained = λ k. omega arith; once = λ k. omega arith };
  known = λ k. omega arith;
  unique = λ k. omega arith;
  fresh = λ k _. refl;
  next = omega arith;
  room = omega arith;
  opened_all = refl;
  live = refl;
  size = omega arith;
}

-- Operations that write neither an id nor a lifecycle nor the registry.
pub IsValid-update :
    (m n : Metrics) (k : ℕ) (f : ConnStats → ConnStats)
    → Keeps f
    → n.store ≡ update k f m.store
    → n.conns ≡ m.conns
    → n.next_conn_id ≡ m.next_conn_id
    → n.conns_opened ≡ m.conns_opened
    → n.conns_live ≡ m.conns_live
    → IsValid m
    → IsValid n
IsValid-update m n k f same e1 e2 e3 e4 e5 v = record {
  holds = record {
    retained = λ j. rw (e1, e2, open_count-update f same k j m.store) (v.holds.retained j);
    once = λ j. rw (e1, e2, open_count-update f same k j m.store) (v.holds.once j);
  };
  known = λ j.
      rw (e1, e2, open_count-update f same k j m.store, id_count-update f same.id k j m.store)
        (v.known j);
  unique = λ j. rw (e1, id_count-update f same.id k j m.store) (v.unique j);
  fresh = λ j h. rw (e1, id_count-update f same.id k j m.store) (v.fresh j (rw e3 at h));
  next = rw (e1, e3, length-update k f m.store) v.next;
  room = rw e3 v.room;
  opened_all = rw (e1, e4, length-update k f m.store) v.opened_all;
  live = rw (e1, e5, total_open-update f same k m.store) v.live;
  size = rw (e2, e5) v.size;
}

pub open_connection-IsValid :
    (now : ℕ) (a b : SocketAddr) (encrypted : Bool) (m : Metrics)
    → suc m.next_conn_id < u64_mod
    → IsValid m
    → IsValid (open_connection now a b encrypted m).0
unfolding open_connection count id_count open_count total_open
open_connection-IsValid now a b encrypted m room v = record {
  holds = record {
    retained = λ k. ground (
      arith,
      count-without m.next_conn_id k m.conns.entries,
      v.holds.retained k,
      v.known k,
      v.fresh k,
      v.holds.once k,
    );
    once = λ k. ground (arith, v.known k, v.fresh k, v.holds.once k);
  };
  known = λ k. ground (arith, v.known k, v.fresh k);
  unique = λ k. ground (arith, v.unique k, v.fresh k);
  fresh = λ k h. ground (arith, v.fresh k);
  next = ground (arith, v.next);
  room = ground (arith, v.next);
  opened_all = ground (arith, v.next, v.opened_all);
  live = ground (arith, v.next, v.live, total_open-le-length m.store);
  size = ground (
    arith,
    v.size,
    v.next,
    v.live,
    total_open-le-length m.store,
    length-without m.next_conn_id m.conns.entries,
    v.holds.retained m.next_conn_id,
    v.known m.next_conn_id,
    v.fresh m.next_conn_id,
  );
}
