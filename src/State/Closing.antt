-- ===== src/State/Closing.antt =====
-- `close_connection`: it acts once, keeps the registry's invariant, and leaves the registry within
-- its cap unless every entry is open.
use tapgres.Prelude.{
  ℕ, ◌≤◌, ◌<◌, ◌≡◌, refl, ap, ◌⊎◌, inl, inr, Option, none, some, List, [], ◌∷◌, ◌++◌, arith, length,
  length-append,
}
use tapgres.State.{
  ConnStats, ConnectionLifecycle, opened, closed, Metrics, find, update, evict, retire,
  close_connection, ending, end_lifecycle,
}
use tapgres.State.Counts.{
  count, id_count, open_count, count-append, open_count-le-id_count, open_count-le-total_open,
  id_count-update, close_with, open_count-close, total_open-close, open_count-find,
}
use tapgres.State.Registry.{
  Holds, IsValid, Evicted, evict-Evicted, total_open-le-length, length-update,
}

-- What a close finds: the record is open, or there is nothing to do.
pub ending-cases :
    (now : ℕ) (o : Option ConnStats)
    → (ending now o ≡ none)
      ⊎ ((since : ℕ) × (c : ConnStats) × (o ≡ some c)
          × (c.lifecycle ≡ opened since)
          × (ending now o ≡ some (closed since now)))
ending-cases now none = inl refl
ending-cases now (some c) = go c.lifecycle refl
  where
    go :
        (l : ConnectionLifecycle)
        → c.lifecycle ≡ l
        → (ending now (some c) ≡ none)
          ⊎ ((since : ℕ) × (d : ConnStats) × (some c ≡ some d)
              × (d.lifecycle ≡ opened since)
              × (ending now (some c) ≡ some (closed since now)))
    go (opened since) e = inr (since, c, refl, e, ap (end_lifecycle now) e)
    go (closed since ended) e = inl (ap (end_lifecycle now) e)

-- The registry holds each open connection once, and nothing else.
abbrev pub HoldsOpen : Metrics → Type 0
HoldsOpen m = (k : ℕ) → count k m.conns.entries ≡ open_count k m.store

module _ (now since id : ℕ) (m : Metrics) (v : IsValid m)
    (live_id : 0 < open_count id m.store) where
  abbrev store' : List ConnStats
  store' = update id (close_with since now) m.store

  queued :
      Holds
        (λ k. open_count k store')
        (record { entries = m.conns.entries; closed = m.conns.closed ++ id ∷ [] })
  unfolding count
  queued = record {
    retained = λ k. ground (
      arith,
      v.holds.retained k,
      v.holds.once k,
      v.holds.once id,
      open_count-close since now id k m.store,
      count-append k m.conns.closed (id ∷ []),
    );
    once = λ k. ground (
      arith,
      v.holds.retained k,
      v.holds.once k,
      open_count-close since now id k m.store,
      count-append k m.conns.closed (id ∷ []),
    );
  }

  evicted :
      Evicted
        (λ k. open_count k store')
        m.connection_cap
        (record { entries = m.conns.entries; closed = m.conns.closed ++ id ∷ [] })
        (evict m.connection_cap m.conns.entries (m.conns.closed ++ id ∷ []))
  evicted =
      evict-Evicted (λ k. open_count k store') m.connection_cap m.conns.entries
        (m.conns.closed ++ id ∷ []) queued

  retire-IsValid : IsValid (retire id (record m { store = store' }))
  unfolding retire count
  retire-IsValid = record {
    holds = evicted.holds;
    known = λ k. ground (
      arith,
      evicted.fewer k,
      v.known k,
      v.holds.once k,
      v.known id,
      v.holds.once id,
      open_count-close since now id k m.store,
      count-append k m.conns.closed (id ∷ []),
      id_count-update (close_with since now) (λ c. refl) id k m.store,
    );
    unique = λ k.
        omega (arith, v.unique k, id_count-update (close_with since now) (λ c. refl) id k m.store);
    fresh = λ k h.
        omega (arith, v.fresh k h, id_count-update (close_with since now) (λ c. refl) id k m.store);
    next = omega (arith, v.next, length-update id (close_with since now) m.store);
    opened_all = omega (arith, v.opened_all, length-update id (close_with since now) m.store);
    room = v.room;
    live = omega (
      arith,
      v.live,
      v.room,
      v.next,
      total_open-close since now id m.store,
      v.holds.once id,
      total_open-le-length m.store,
    );
    size = omega (
      arith,
      evicted.balance,
      v.size,
      v.live,
      v.room,
      v.next,
      open_count-le-total_open id m.store,
      total_open-le-length m.store,
      length-append m.conns.closed (id ∷ []),
    );
  }

  retire-bounded :
      let n = retire id (record m { store = store' }) in
      (length n.conns.entries ≤ m.connection_cap) ⊎ HoldsOpen n
  unfolding retire count
  retire-bounded = elim evicted.bounded [
    | inl h ↦ inl h
    | inr h ↦ inr (λ k. omega (arith, retire-IsValid.holds.retained k, ap (λ l. count k l) h))
  ]

-- Closing, whether or not the connection is still open, keeps the invariant.
pub close_connection-IsValid :
    (now id : ℕ) (m : Metrics) → IsValid m → IsValid (close_connection now id m)
unfolding close_connection
close_connection-IsValid now id m v = elim (ending-cases now (find id m.store)) [
  | inl e ↦ rw e v
  | inr (since, c, found, open_c, e) ↦
      rw e (retire-IsValid now since id m v (open_count-find id since m.store c found open_c))
]

-- A record that a close passes over is closed.
pub nothing_open :
    (now k : ℕ) (l : List ConnStats)
    → id_count k l ≤ 1
    → ending now (find k l) ≡ none
    → open_count k l ≡ 0
unfolding find id_count open_count
nothing_open now k [] u e = refl
nothing_open now k (c ∷ l) u e = ground (arith, nothing_open now k l, open_count-le-id_count k l)

ending_later : (now later : ℕ) (o : Option ConnStats) → ending now o ≡ none → ending later o ≡ none
ending_later now later o e = ground arith

-- After an open connection of a valid store has been closed, the registry holds no more entries than its cap, or
-- each open connection once and nothing else.
pub close_connection-bounded :
    (now id : ℕ) (m : Metrics)
    → IsValid m
    → 0 < open_count id m.store
    → let n = close_connection now id m in (length n.conns.entries ≤ m.connection_cap) ⊎ HoldsOpen n
unfolding close_connection
close_connection-bounded now id m v live_id = elim (ending-cases now (find id m.store)) [
  | inl e ↦ absurd (omega (arith, nothing_open now id m.store (v.unique id) e))
  | inr (since, c, found, open_c, e) ↦ rw e (retire-bounded now since id m v live_id)
]

find-update :
    (k : ℕ) (f : ConnStats → ConnStats) (l : List ConnStats) (c : ConnStats)
    → ((d : ConnStats) → (f d).id ≡ d.id)
    → find k l ≡ some c
    → find k (update k f l) ≡ some (f c)
unfolding find update
find-update k f [] c same e = cc
find-update k f (d ∷ l) c same e = ground (arith, same d, find-update k f l c same)

-- A second close of the same connection changes nothing, whenever it comes.
pub close_connection_idem :
    (now later id : ℕ) (m : Metrics)
    → close_connection later id (close_connection now id m) ≡ close_connection now id m
unfolding close_connection retire
close_connection_idem now later id m = elim (ending-cases now (find id m.store)) [
  | inl e ↦ rw e (rw (ending_later now later (find id m.store) e))
  | inr (since, c, found, open_c, e) ↦
      rw e (rw (find-update id (close_with since now) m.store c (λ d. refl) found))
]
