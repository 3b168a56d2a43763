-- ===== src/Proxy/Relay.antt =====
-- The pumps are transparent: what they write is what they read.
use tapgres.Prelude.{
  ℕ, ◌+◌, ◌<◌, ◌≡◌, refl, sym, ap, ◌∙◌, true, false, some, List, [], ◌∷◌, ◌++◌, append_assoc,
  append-nil, arith, ltb,
}
use tapgres.Bytes.{Bytes}
use tapgres.Direction.{Role, client, server}
use tapgres.State.{Metrics}
use tapgres.State.Counts.{id_count}
use tapgres.State.Reach.{Reach-trans}
use tapgres.Decode.Emit.Counts.{message_count}
use tapgres.Decode.Drain.{Drain, default_outcome}
use tapgres.Decode.Drain.Total.{Documented, drain_direction-Drained}
use tapgres.Connection.{Env}
use tapgres.Connection.Handled.{
  Agree, Accounted, Accounted-refl, SameRecords-trans, recorded-Accounted, recorded-counters,
}
use tapgres.Proxy.{
  Read, got, unwritten, end_of_stream, read_failed, Pumps, pump_of, set_pump, drained, decode_chunk,
  forward_chunk, and_then, run_pumps,
}

pub Accounted-trans : {m n p : Metrics} → Accounted m n → Accounted n p → Accounted m p
Accounted-trans f g = record {
  reach = Reach-trans f.reach g.reach;
  same = SameRecords-trans f.same g.same;
}

-- What a pump does besides writing.
pub record Quiet (p q : Pumps) : Type 0 where
  pub to_server : q.to_server ≡ p.to_server
  pub to_client : q.to_client ≡ p.to_client
  pub metrics : Accounted p.shared.metrics q.shared.metrics
  pub agree : Agree p.shared.metrics p.shared.log → Agree q.shared.metrics q.shared.log

set_pump-Quiet :
    (role : Role) (id : ℕ) (d r : Drain) (p : Pumps)
    → 0 < id_count id p.shared.metrics.store
    → message_count r.log ≡ message_count p.shared.log + r.outcome.msgs
    → Quiet p (set_pump role r id p)
set_pump-Quiet client id d r p h e = record {
  to_server = refl;
  to_client = refl;
  metrics =
      recorded-Accounted (ltb 0 r.outcome.msgs) true r.outcome.msgs r.outcome.bytes id h
        (Accounted-refl p.shared.metrics);
  agree = λ a.
      omega
        (arith, a, e, recorded-counters true r.outcome.msgs r.outcome.bytes id p.shared.metrics);
}
set_pump-Quiet server id d r p h e = record {
  to_server = refl;
  to_client = refl;
  metrics =
      recorded-Accounted (ltb 0 r.outcome.msgs) false r.outcome.msgs r.outcome.bytes id h
        (Accounted-refl p.shared.metrics);
  agree = λ a.
      omega
        (arith, a, e, recorded-counters false r.outcome.msgs r.outcome.bytes id p.shared.metrics);
}

-- The bytes that one side has sent, up to the end of either pump.
abbrev sent_by : Role → Role → Bytes → Bytes
sent_by client client chunk = chunk
sent_by server server chunk = chunk
sent_by _ _ chunk = []

unfoldable pub sent : Role → List (Role × Read) → Bytes
sent side [] = []
sent side ((role, got b chunk) ∷ reads) = sent_by side role (b ∷ chunk) ++ sent side reads
sent side ((role, _) ∷ reads) = []

-- What a run of the pumps comes to.
pub record Relayed (reads : List (Role × Read)) (p q : Pumps) : Type 0 where
  pub to_server : q.to_server ≡ p.to_server ++ sent client reads
  pub to_client : q.to_client ≡ p.to_client ++ sent server reads
  pub metrics : Accounted p.shared.metrics q.shared.metrics
  pub agree : Agree p.shared.metrics p.shared.log → Agree q.shared.metrics q.shared.log

ended-Relayed :
    (reads : List (Role × Read)) {p q : Pumps}
    → sent client reads ≡ []
    → sent server reads ≡ []
    → Quiet p q
    → Relayed reads p q
ended-Relayed reads {p} {q} e f a = record {
  to_server = a.to_server ∙ (rw e (sym (append-nil p.to_server)));
  to_client = a.to_client ∙ (rw f (sym (append-nil p.to_client)));
  metrics = a.metrics;
  agree = a.agree;
}

Quiet-refl : (p : Pumps) → Quiet p p
Quiet-refl p = record {
  to_server = refl;
  to_client = refl;
  metrics = Accounted-refl p.shared.metrics;
  agree = λ a. a;
}

forwarded-Relayed :
    (role : Role) (b : ℕ) (chunk : Bytes) (reads : List (Role × Read)) {p q r : Pumps}
    → Quiet p q
    → Relayed reads (forward_chunk role (b ∷ chunk) q) r
    → Relayed ((role, got b chunk) ∷ reads) p r
unfolding sent
forwarded-Relayed client b chunk reads {p} {q} {r} a w = record {
  to_server =
      w.to_server
      ∙ ap (λ l. (l ++ b ∷ chunk) ++ sent client reads) a.to_server
      ∙ append_assoc p.to_server (b ∷ chunk) (sent client reads);
  to_client = w.to_client ∙ ap (λ l. l ++ sent server reads) a.to_client;
  metrics = Accounted-trans a.metrics w.metrics;
  agree = λ e. w.agree (a.agree e);
}
forwarded-Relayed server b chunk reads {p} {q} {r} a w = record {
  to_server = w.to_server ∙ ap (λ l. l ++ sent client reads) a.to_server;
  to_client =
      w.to_client
      ∙ ap (λ l. (l ++ b ∷ chunk) ++ sent server reads) a.to_client
      ∙ append_assoc p.to_client (b ∷ chunk) (sent server reads);
  metrics = Accounted-trans a.metrics w.metrics;
  agree = λ e. w.agree (a.agree e);
}

module _ (env : Env) (doc : Documented env.wire) (id : ℕ) where
  decode_chunk-Quiet :
      (role : Role) (chunk : Bytes) (p : Pumps)
      → 0 < id_count id p.shared.metrics.store
      → (q : Pumps) × (decode_chunk env id role chunk p ≡ some q) × Quiet p q
  unfolding decode_chunk
  decode_chunk-Quiet role chunk p h =
      let d = pump_of role p in
      let start : Drain = record {
        dir = record d { rxbuf = d.rxbuf ++ chunk };
        outcome = default_outcome;
        log = p.shared.log;
      } in
      let (r, ends, done) = drain_direction-Drained env.wire env.clock doc start in
      (
        set_pump role r id p,
        ap (drained role id p) ends,
        set_pump-Quiet role id start r p h (omega (arith, done.counted)),
      )

  forward-shared :
      (role : Role) (chunk : Bytes) (p : Pumps)
      → (forward_chunk role chunk p).shared.metrics.store ≡ p.shared.metrics.store
  forward-shared client chunk p = refl
  forward-shared server chunk p = refl

  pub run_pumps-Relayed :
      (reads : List (Role × Read)) (p : Pumps)
      → 0 < id_count id p.shared.metrics.store
      → (q : Pumps) × (run_pumps env id reads p ≡ some q) × Relayed reads p q
  unfolding run_pumps sent
  run_pumps-Relayed [] p h = (p, refl, ended-Relayed [] refl refl (Quiet-refl p))
  run_pumps-Relayed ((role, got b chunk) ∷ reads) p h =
      let (q, e, a) = decode_chunk-Quiet role (b ∷ chunk) p h in
      let f = forward_chunk role (b ∷ chunk) q in
      let (r, g, w) = run_pumps-Relayed reads f (
        omega (
          arith,
          h,
          a.metrics.same.ids id,
          ap (id_count id) (forward-shared role (b ∷ chunk) q),
        )) in
      (
        r,
        ap (λ o. and_then o (λ x. run_pumps env id reads (forward_chunk role (b ∷ chunk) x))) e ∙ g,
        forwarded-Relayed role b chunk reads a w,
      )
  run_pumps-Relayed ((role, unwritten b chunk) ∷ reads) p h =
      let (q, e, a) = decode_chunk-Quiet role (b ∷ chunk) p h in
      (q, e, ended-Relayed ((role, unwritten b chunk) ∷ reads) refl refl a)
  run_pumps-Relayed ((role, end_of_stream) ∷ reads) p h =
      (p, refl, ended-Relayed ((role, end_of_stream) ∷ reads) refl refl (Quiet-refl p))
  run_pumps-Relayed ((role, read_failed) ∷ reads) p h =
      (p, refl, ended-Relayed ((role, read_failed) ∷ reads) refl refl (Quiet-refl p))
