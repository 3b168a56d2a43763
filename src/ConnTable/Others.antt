-- ===== src/ConnTable/Others.antt =====
-- A packet leaves the other connections' entries alone, and a FIN closes its own.
use tapgres.Prelude.{
  ℕ, suc, ◌<◌, ◌≡◌, refl, sym, ap, ◌∙◌, subst, inl, inr, ◌&&◌, Bool, true, false, not, Option, none,
  some, arith, if◌then◌else◌, Bool-cases,
}
use tapgres.Net.{TcpSegment}
use tapgres.Connection
use tapgres.State.{u64_mod}
use tapgres.Decode.Drain.Total.{Documented}
use tapgres.Connection.{Env, Shared, Connection}
use tapgres.ConnTable.{
  key_eq, ConnKey, ConnTable, classify, get, insert, handled, after_handle, dispatch, handle_key,
  remove_entry, reset_entry, finish_entry, open_entry, should_open, handle,
}
use tapgres.ConnTable.Keys.{get-insert_same, get-insert_other, get-remove_other}
use tapgres.ConnTable.Tracks.{Tracks}
use tapgres.ConnTable.Advance.{handle-Advance}

-- The end of `handle`, for an entry that has been handled.
abbrev ended : Env → TcpSegment → ConnKey → Connection → ConnTable → ConnTable
ended env seg key c t =
    if seg.rst
    then reset_entry env key t
    else if seg.fin && not c.metrics_closed
    then finish_entry env key c t
    else t

none-some : {A : Type 0} {a : A} → none ≡ some a → ⊥
none-some e = cc

opens_it : true ≡ false → ⊥
opens_it e = cc

module _ (env : Env) (pg_port : ℕ) (seg : TcpSegment) (key : ConnKey) where
  module _ (k : ConnKey) (other : key_eq key k ≡ false) where
    reset_others : (t : ConnTable) → get k (reset_entry env key t).map ≡ get k t.map
    unfolding reset_entry
    reset_others t = go _ (get key t.map)
      where
        go :
            (s : ConnTable) (o : Option Connection)
            → get k (remove_entry env key s o).map ≡ get k s.map
        go s none = refl
        go s (some c) = get-remove_other key k other s.map

    ended_others :
        (c : Connection) (t : ConnTable) → get k (ended env seg key c t).map ≡ get k t.map
    unfolding finish_entry
    ended_others c t = elim (Bool-cases seg.rst) [
      | inl e ↦ rw e (reset_others t)
      | inr e ↦ rw e (elim (Bool-cases (seg.fin && not c.metrics_closed)) [
        | inl f ↦ rw f (get-insert_other key k other (record c { metrics_closed = true }) t.map)
        | inr f ↦ rw f refl
      ])
    ]

    after_others :
        (t : ConnTable) (r : Option (Connection × Shared)) (u : ConnTable)
        → after_handle env seg key (handled env key t r) ≡ some u
        → get k u.map ≡ get k t.map
    after_others t none u e = cc
    after_others t (some (c, s)) u e =
        let q : ConnTable = record { map = insert key c t.map; shared = s } in
        let same : ended env seg key c q ≡ u = cc in
        ap (λ x. get k x.map) (sym same) ∙ ended_others c q ∙ get-insert_other key k other c t.map

    dispatch_others :
        (t : ConnTable) (o : Option Connection) (u : ConnTable)
        → dispatch env pg_port seg key t o ≡ some u
        → get k u.map ≡ get k t.map
    dispatch_others t none u e = elim (Bool-cases seg.rst) [
      | inl f ↦
          let same : (if seg.rst then reset_entry env key t else t) ≡ u = cc in
          ap (λ x. get k x.map) (sym same) ∙ rw f (reset_others t)
      | inr f ↦
          let same : (if seg.rst then reset_entry env key t else t) ≡ u = cc in
          ap (λ x. get k x.map) (sym same) ∙ rw f refl
    ]
    dispatch_others t (some c) u e =
        after_others t (Connection.handle env pg_port seg c t.shared) u e

    ready_others :
        (b : Bool) (t : ConnTable)
        → get k (if b then open_entry env pg_port key t else t).map ≡ get k t.map
    unfolding open_entry
    ready_others true t = get-insert_other key k other _ t.map
    ready_others false t = refl

    handle_others :
        (t u : ConnTable) → handle_key env pg_port seg key t ≡ some u → get k u.map ≡ get k t.map
    handle_others t u e =
        let b = should_open seg (get key t.map) in
        let ready = if b then open_entry env pg_port key t else t in
        dispatch_others ready (get key ready.map) u e ∙ ready_others b t

  -- An entry that has been closed.
  abbrev Closed : Option Connection → Type 0
  Closed o = (c : Connection) × (o ≡ some c) × (c.metrics_closed ≡ true)

  module _ (fin : seg.fin ≡ true) (rst : seg.rst ≡ false) where
    ended-Closed :
        (c : Connection) (t : ConnTable)
        → get key t.map ≡ some c
        → Closed (get key (ended env seg key c t).map)
    unfolding finish_entry
    ended-Closed c t found = rw rst (elim (Bool-cases (seg.fin && not c.metrics_closed)) [
      | inl f ↦ rw f (
        record c { metrics_closed = true },
        get-insert_same key (record c { metrics_closed = true }) t.map,
        refl,
      )
      | inr f ↦ rw f (c, found, ground (arith, f, fin))
    ])

    after-Closed :
        (t : ConnTable) (r : Option (Connection × Shared)) (u : ConnTable)
        → after_handle env seg key (handled env key t r) ≡ some u
        → Closed (get key u.map)
    after-Closed t none u e = cc
    after-Closed t (some (c, s)) u e =
        let q : ConnTable = record { map = insert key c t.map; shared = s } in
        let same : ended env seg key c q ≡ u = cc in
        subst (λ x. Closed (get key x.map)) same (ended-Closed c q (get-insert_same key c t.map))

    dispatch-Closed :
        (t : ConnTable) (o : Option Connection) (u : ConnTable)
        → get key t.map ≡ o
        → ((o ≡ none) → ⊥)
        → dispatch env pg_port seg key t o ≡ some u
        → Closed (get key u.map)
    dispatch-Closed t none u found some_entry e = absurd (some_entry refl)
    dispatch-Closed t (some c) u found some_entry e =
        after-Closed t (Connection.handle env pg_port seg c t.shared) u e

    ready_entry :
        (b : Bool) (t : ConnTable)
        → should_open seg (get key t.map) ≡ b
        → get key (if b then open_entry env pg_port key t else t).map ≡ none
        → ⊥
    unfolding open_entry
    ready_entry true t e f =
        let c = get-insert_same key (Connection.new env.default_context key.client _) t.map in
        absurd (none-some (sym f ∙ c))
    ready_entry false t e f = absurd (opens_it (ap (should_open seg) (sym f) ∙ e))

    handle-Closed :
        (t u : ConnTable) → handle_key env pg_port seg key t ≡ some u → Closed (get key u.map)
    handle-Closed t u e =
        let b = should_open seg (get key t.map) in
        let ready = if b then open_entry env pg_port key t else t in
        dispatch-Closed ready (get key ready.map) u refl (ready_entry b t refl) e

-- What a packet of the connection `key` does to the entries of the table.
pub record Served (key : ConnKey) (seg : TcpSegment) (t u : ConnTable) : Type 0 where
  pub others : (k : ConnKey) → key_eq key k ≡ false → get k u.map ≡ get k t.map
  pub closes :
      seg.fin ≡ true
      → seg.rst ≡ false
      → (c : Connection) × (get key u.map ≡ some c) × (c.metrics_closed ≡ true)

-- With a decoder as documented, from any table in order, and while ids fit 64 bits, a packet of one connection
-- is handled and leaves the entries of all other connections alone; if it carries FIN and not RST, the
-- connection has an entry after it that is closed, also when the packet is its first.
pub handle-Served :
    (env : Env) (pg_port : ℕ) (seg : TcpSegment) (key : ConnKey) (t : ConnTable)
    → Documented env.wire
    → Tracks t
    → suc t.shared.metrics.next_conn_id < u64_mod
    → classify pg_port seg ≡ some key
    → (u : ConnTable) × (handle env pg_port seg t ≡ some u) × Served key seg t u
unfolding handle
handle-Served env pg_port seg key t doc h room classified =
    let (u, e, _) = handle-Advance env pg_port seg t doc h room in
    let by_key : handle_key env pg_port seg key t ≡ some u =
      ap
        (λ o. elim o as (λ x. Option ConnTable) [
          | none ↦ some t
          | some k ↦ handle_key env pg_port seg k t
        ])
        (sym classified)
      ∙ e in
    (
      u,
      e,
      record {
        others = λ k other. handle_others env pg_port seg key k other t u by_key;
        closes = λ fin rst. handle-Closed env pg_port seg key fin rst t u by_key;
      },
    )
