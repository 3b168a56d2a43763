-- ===== src/Connection/Handled.antt =====
-- Connection::handle always comes to an end, and what it does to the metrics.
use tapgres.Prelude.{
  ℕ, zero, suc, ◌%◌, ◌+◌, ◌<◌, ◌≡◌, refl, ap, ◌∙◌, inl, inr, Bool, true, false, Option, some, arith,
  if◌then◌else◌, ltb, lt→ltb, ◌==◌, Bool-cases,
}
use tapgres.Net.{TcpSegment}
use tapgres.Direction.{feed}
use tapgres.State.{Metrics, u64_mod, in_bound, out_bound, record_messages, set_encrypted}
use tapgres.State.Counts.{id_count}
use tapgres.State.Reach.{Reach, here, next, records, encrypts}
use tapgres.State.Effects.{
  messages, set_encrypted-messages, record_messages-messages, SameRecords,
  record_messages-SameRecords, set_encrypted-SameRecords,
}
use tapgres.Decode.Emit.{Log}
use tapgres.Decode.Emit.Counts.{message_count}
use tapgres.Decode.Drain.{Drain, DrainOutcome, default_outcome}
use tapgres.Decode.Drain.Total.{Documented, drain_direction-Drained}
use tapgres.Connection.{Env, Shared, Connection, side, account, settle, settled, handle}

-- The metrics go by operations of theirs, none of which opens or closes a record.
pub record Accounted (m n : Metrics) : Type 0 where
  pub reach : Reach m n
  pub same : SameRecords m n

SameRecords-refl : (m : Metrics) → SameRecords m m
SameRecords-refl m = record {
  ids = λ k. refl;
  opens = λ k. refl;
  total = refl;
  next = refl;
  size = refl;
}

pub SameRecords-trans : {m n p : Metrics} → SameRecords m n → SameRecords n p → SameRecords m p
SameRecords-trans f g = record {
  ids = λ k. g.ids k ∙ f.ids k;
  opens = λ k. g.opens k ∙ f.opens k;
  total = g.total ∙ f.total;
  next = g.next ∙ f.next;
  size = g.size ∙ f.size;
}

pub Accounted-refl : (m : Metrics) → Accounted m m
Accounted-refl m = record { reach = here; same = SameRecords-refl m }

marked-Accounted :
    (b : Bool) (id : ℕ) (m : Metrics) → Accounted m (if b then set_encrypted id true m else m)
marked-Accounted true id m = record {
  reach = next here (encrypts id true m);
  same = set_encrypted-SameRecords id true m;
}
marked-Accounted false id m = Accounted-refl m

pub recorded-Accounted :
    (b way : Bool) (n bytes id : ℕ) {m k : Metrics}
    → 0 < id_count id m.store
    → Accounted m k
    → Accounted m
        (if b then record_messages id (if way then in_bound else out_bound) n bytes k else k)
recorded-Accounted false way n bytes id h a = a
recorded-Accounted true true n bytes id {m} {k} h a = record {
  reach = next a.reach (records id in_bound n bytes k (omega (arith, h, a.same.ids id)));
  same = SameRecords-trans a.same (record_messages-SameRecords id in_bound n bytes k);
}
recorded-Accounted true false n bytes id {m} {k} h a = record {
  reach = next a.reach (records id out_bound n bytes k (omega (arith, h, a.same.ids id)));
  same = SameRecords-trans a.same (record_messages-SameRecords id out_bound n bytes k);
}

account-Accounted :
    (way : Bool) (o : DrainOutcome) (id : ℕ) (m : Metrics)
    → 0 < id_count id m.store
    → Accounted m (account way o id m)
unfolding account
account-Accounted way o id m h =
    recorded-Accounted (ltb 0 o.msgs) way o.msgs o.bytes id h (marked-Accounted o.encrypted id m)

-- The counters of messages are those of the messages delivered, as 64 bits hold them.
abbrev pub Agree : Metrics → Log → Type 0
Agree m log = messages m % u64_mod ≡ message_count log % u64_mod

pub recorded-counters :
    (way : Bool) (n bytes id : ℕ) (m : Metrics)
    → messages (
          if ltb 0 n then record_messages id (if way then in_bound else out_bound) n bytes m else m)
        % u64_mod
      ≡ (messages m + n) % u64_mod
recorded-counters way zero bytes id m = omega arith
recorded-counters way (suc n) bytes id m =
    rw (lt→ltb 0 (suc n) (omega arith))
      (record_messages-messages id (if way then in_bound else out_bound) (suc n) bytes m)

account-counters :
    (way : Bool) (o : DrainOutcome) (id : ℕ) (m : Metrics)
    → messages (account way o id m) % u64_mod ≡ (messages m + o.msgs) % u64_mod
unfolding account
account-counters way o id m =
    recorded-counters way o.msgs o.bytes id _
    ∙ rw (set_encrypted-messages o.encrypted id true m) refl

-- What a segment does to a connection and to what it shares.
pub record Handled (c : Connection) (s : Shared) (d : Connection) (t : Shared) : Type 0 where
  pub stats : d.stats ≡ c.stats
  pub metrics_closed : d.metrics_closed ≡ c.metrics_closed
  pub metrics : Accounted s.metrics t.metrics
  pub agree : Agree s.metrics s.log → Agree t.metrics t.log

Handled-refl : (c : Connection) (s : Shared) → Handled c s c s
Handled-refl c s = record {
  stats = refl;
  metrics_closed = refl;
  metrics = Accounted-refl s.metrics;
  agree = λ e. e;
}

settle-stats :
    (way : Bool) (r : Drain) (c : Connection) (s : Shared) → (settle way r c s).0.stats ≡ c.stats
unfolding settle
settle-stats true r c s = elim (Bool-cases r.outcome.encrypted) [
  | inl e ↦ rw e refl
  | inr e ↦ rw e refl
]
settle-stats false r c s = elim (Bool-cases r.outcome.encrypted) [
  | inl e ↦ rw e refl
  | inr e ↦ rw e refl
]

settle-closed :
    (way : Bool) (r : Drain) (c : Connection) (s : Shared)
    → (settle way r c s).0.metrics_closed ≡ c.metrics_closed
unfolding settle
settle-closed true r c s = elim (Bool-cases r.outcome.encrypted) [
  | inl e ↦ rw e refl
  | inr e ↦ rw e refl
]
settle-closed false r c s = elim (Bool-cases r.outcome.encrypted) [
  | inl e ↦ rw e refl
  | inr e ↦ rw e refl
]

settle-metrics :
    (way : Bool) (r : Drain) (c : Connection) (s : Shared)
    → 0 < id_count c.stats s.metrics.store
    → Accounted s.metrics (settle way r c s).1.metrics
unfolding settle
settle-metrics way r c s h = account-Accounted way r.outcome c.stats s.metrics h

settle-Agree :
    (way : Bool) (r : Drain) (c : Connection) (s : Shared)
    → message_count r.log ≡ message_count s.log + r.outcome.msgs
    → Agree s.metrics s.log
    → Agree (settle way r c s).1.metrics (settle way r c s).1.log
unfolding settle
settle-Agree way r c s h e = omega (arith, e, h, account-counters way r.outcome c.stats s.metrics)

abbrev Ends : Connection → Shared → Option (Connection × Shared) → Type 0
Ends c s o = (d : Connection) × (t : Shared) × (o ≡ some (d, t)) × Handled c s d t

either-Ends :
    (b : Bool) (c : Connection) (s : Shared) {o : Option (Connection × Shared)}
    → Ends c s o
    → Ends c s (if b then some (c, s) else o)
either-Ends true c s f = (c, s, refl, Handled-refl c s)
either-Ends false c s f = f

-- With a decoder as documented, a connection handles every segment.
pub handle-Handled :
    (env : Env) (pg_port : ℕ) (seg : TcpSegment) (c : Connection) (s : Shared)
    → Documented env.wire
    → 0 < id_count c.stats s.metrics.store
    → (d : Connection) × (t : Shared) × (handle env pg_port seg c s ≡ some (d, t)) × Handled c s d t
unfolding handle
handle-Handled env pg_port seg c s doc h =
    let way = seg.dst_port == pg_port in
    let start : Drain = record {
      dir = feed (side way c) seg.seq seg.syn seg.payload;
      outcome = default_outcome;
      log = s.log;
    } in
    let (r, ends, drained) = drain_direction-Drained env.wire env.clock doc start in
    either-Ends c.encrypted c s (
      (settle way r c s).0,
      (settle way r c s).1,
      ap (settled way c s) ends,
      record {
        stats = settle-stats way r c s;
        metrics_closed = settle-closed way r c s;
        metrics = settle-metrics way r c s h;
        agree = settle-Agree way r c s (omega (arith, drained.counted));
      },
    )
