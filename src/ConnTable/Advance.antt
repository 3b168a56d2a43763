-- ===== src/ConnTable/Advance.antt =====
-- ConnTable::handle: every packet is handled, by operations of the metrics that keep the invariant.
use tapgres.Prelude.{
  ℕ, suc, ◌+◌, ◌<◌, ◌≡◌, refl, ap, ◌&&◌, inl, inr, Bool, true, false, not, Option, none, some,
  arith, if◌then◌else◌, ==_refl, length, Bool-cases,
}
use tapgres.Net.{TcpSegment}
use tapgres.State.{u64_mod}
use tapgres.State.Counts.{one_if, id_count}
use tapgres.State.Registry.{IsValid}
use tapgres.State.Reach.{Reach, Reach-trans, Reach-keeps, here, next, opens, closes}
use tapgres.State.Effects.{open_connection-OpenedRecord, close_connection-ClosedRecord}
use tapgres.Decode.Drain.Total.{Documented}
use tapgres.Connection.{Env, Connection}
use tapgres.Connection.Handled.{handle-Handled}
use tapgres.ConnTable.{
  ConnKey, ConnTable, classify, get, insert, dispatch, handled, after_handle, handle_key,
  remove_entry, open_entry, reset_entry, finish_entry, should_open, handle,
}
use tapgres.ConnTable.Entries.{weight, total-remove, of_record, unclosed, get-insert}
use tapgres.ConnTable.Tracks.{
  Tracks, open_entry-Tracks, finish_entry-Tracks, reset_entry-Tracks, Handled-Tracks,
}

-- What a packet comes to: the invariant, by operations of the metrics that open `n` records.
pub record Advance (n : ℕ) (t u : ConnTable) : Type 0 where
  pub tracks : Tracks u
  pub reach : Reach t.shared.metrics u.shared.metrics
  pub opened : length u.shared.metrics.store ≡ n + length t.shared.metrics.store

Advance-trans : {n : ℕ} {t u v : ConnTable} → Advance n t u → Advance 0 u v → Advance n t v
Advance-trans f g = record {
  tracks = g.tracks;
  reach = Reach-trans f.reach g.reach;
  opened = omega (arith, f.opened, g.opened);
}

pub Advance-refl : {t : ConnTable} → Tracks t → Advance 0 t t
Advance-refl h = record { tracks = h; reach = here; opened = omega arith }

remove_entry-metrics :
    (env : Env) (key : ConnKey) (t : ConnTable) (o : Option Connection)
    → IsValid t.shared.metrics
    → let u = remove_entry env key t o in
      Reach t.shared.metrics u.shared.metrics
      × (length u.shared.metrics.store ≡ length t.shared.metrics.store)
remove_entry-metrics env key t none v = (here, refl)
remove_entry-metrics env key t (some c) v = (
  next here (closes _ c.stats t.shared.metrics),
  (close_connection-ClosedRecord _ c.stats t.shared.metrics v).size,
)

module _ (env : Env) (key : ConnKey) (t : ConnTable) (h : Tracks t) where
  finish_entry-Advance :
      (c : Connection)
      → get key t.map ≡ some c
      → c.metrics_closed ≡ false
      → Advance 0 t (finish_entry env key c t)
  unfolding finish_entry
  finish_entry-Advance c found not_yet = record {
    tracks = finish_entry-Tracks env key t h c found not_yet;
    reach = next here (closes _ c.stats t.shared.metrics);
    opened = omega (arith, (close_connection-ClosedRecord _ c.stats t.shared.metrics h.valid).size);
  }

  reset_entry-Advance : Advance 0 t (reset_entry env key t)
  unfolding reset_entry
  reset_entry-Advance =
      let (reach, same) = remove_entry-metrics env key _ (get key t.map) h.valid in
      record {
        tracks = reset_entry-Tracks env key t h;
        reach = reach;
        opened = omega (arith, same);
      }

  open_entry-Advance :
      (pg_port : ℕ)
      → suc t.shared.metrics.next_conn_id < u64_mod
      → weight unclosed (get key t.map) ≡ 0
      → Advance 1 t (open_entry env pg_port key t)
  unfolding open_entry
  open_entry-Advance pg_port room vacant = record {
    tracks = open_entry-Tracks env key t h pg_port room vacant;
    reach = next here (opens _ key.client key.server false t.shared.metrics room);
    opened = (open_connection-OpenedRecord _ key.client key.server false t.shared.metrics).size;
  }

-- An entry of the table has its record.
has_record :
    (key : ConnKey) (t : ConnTable) (c : Connection)
    → Tracks t
    → get key t.map ≡ some c
    → 0 < id_count c.stats t.shared.metrics.store
has_record key t c h found = ground (
  arith,
  h.known c.stats,
  total-remove (of_record c.stats) key t.map,
  ap (weight (of_record c.stats)) found,
  ==_refl c.stats,
)

abbrev Ends : ℕ → ConnTable → Option ConnTable → Type 0
Ends n t o = (u : ConnTable) × (o ≡ some u) × Advance n t u

module _ (env : Env) (doc : Documented env.wire) (pg_port : ℕ) (seg : TcpSegment)
    (key : ConnKey) where
  closed-Advance :
      (c : Connection) (t : ConnTable)
      → Tracks t
      → get key t.map ≡ some c
      → Advance 0 t (
          if seg.rst
          then reset_entry env key t
          else if seg.fin && not c.metrics_closed
          then finish_entry env key c t
          else t)
  closed-Advance c t h found = elim (Bool-cases seg.rst) [
    | inl e ↦ rw e (reset_entry-Advance env key t h)
    | inr e ↦ rw e (elim (Bool-cases (seg.fin && not c.metrics_closed)) [
      | inl f ↦ rw f (finish_entry-Advance env key t h c found (ground (arith, f)))
      | inr f ↦ rw f (Advance-refl h)
    ])
  ]

  dispatch-Advance :
      (t : ConnTable) (o : Option Connection)
      → Tracks t
      → get key t.map ≡ o
      → Ends 0 t (dispatch env pg_port seg key t o)
  dispatch-Advance t none h found = (
    _,
    refl,
    elim (Bool-cases seg.rst) [
      | inl e ↦ rw e (reset_entry-Advance env key t h)
      | inr e ↦ rw e (Advance-refl h)
    ],
  )
  dispatch-Advance t (some c) h found =
      let (d, s, ends, done) =
        handle-Handled env pg_port seg c t.shared doc (has_record key t c h found) in
      let u : ConnTable = record { map = insert key d t.map; shared = s } in
      let tracks : Tracks u =
        Handled-Tracks env key t h c d s found done (Reach-keeps done.metrics.reach h.valid) in
      let moved : Advance 0 t u = record {
        tracks = tracks;
        reach = done.metrics.reach;
        opened = omega (arith, done.metrics.same.size);
      } in
      (
        _,
        ap (λ o. after_handle env seg key (handled env key t o)) ends,
        Advance-trans moved (closed-Advance d u tracks (get-insert key d c t.map found)),
      )

-- Whether the packet opens a connection.
abbrev pub openings : ℕ → TcpSegment → ConnTable → ℕ
openings pg_port seg t = elim (classify pg_port seg) [
  | none ↦ 0
  | some key ↦ one_if (should_open seg (get key t.map))
]

vacant :
    (seg : TcpSegment) (o : Option Connection) → should_open seg o ≡ true → weight unclosed o ≡ 0
vacant seg none e = refl
vacant seg (some c) e = ground (arith, e)

-- With a decoder as documented, from any table in order, and while ids fit 64 bits, every packet is
-- handled. It changes the metrics by operations of theirs alone, it opens a record when it is the
-- first of its connection or a SYN of a connection that is closed, and none otherwise, and it leaves
-- the table in order: the metrics are valid, they hold a record open for each entry not closed and for no
-- other, and their counters of messages agree with the messages that have been delivered.
pub handle-Advance :
    (env : Env) (pg_port : ℕ) (seg : TcpSegment) (t : ConnTable)
    → Documented env.wire
    → Tracks t
    → suc t.shared.metrics.next_conn_id < u64_mod
    → (u : ConnTable) × (handle env pg_port seg t ≡ some u) × Advance (openings pg_port seg t) t u
unfolding handle
handle-Advance env pg_port seg t doc h room = go (classify pg_port seg)
  where
    opened :
        (key : ConnKey) (b : Bool)
        → should_open seg (get key t.map) ≡ b
        → Advance (one_if b) t (if b then open_entry env pg_port key t else t)
    opened key true e = open_entry-Advance env key t h pg_port room (vacant seg (get key t.map) e)
    opened key false e = Advance-refl h

    go :
        (o : Option ConnKey)
        → Ends
            (elim o [ none ↦ 0 | some key ↦ one_if (should_open seg (get key t.map)) ])
            t
            (elim o [ none ↦ some t | some key ↦ handle_key env pg_port seg key t ])
    go none = (t, refl, Advance-refl h)
    go (some key) =
        let first = opened key (should_open seg (get key t.map)) refl in
        let (u, ends, then_) = dispatch-Advance env doc pg_port seg key _ _ first.tracks refl in
        (u, ends, Advance-trans first then_)
