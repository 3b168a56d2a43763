-- ===== src/Decode/Drain/Total.antt =====
-- Draining ends, and accounts for every byte and message.
use tapgres.Prelude.{
  ℕ, zero, suc, ◌+◌, ◌-◌, ◌≤◌, ◌<◌, ◌≡◌, refl, sym, subst, ◌∙◌, ap, ◌⊎◌, Bool, true, false, Option,
  some, arith, length, if◌then◌else◌, Bool-cases, inl, inr,
}
use tapgres.Bytes.{Bytes}
use tapgres.Event.{Text}
use tapgres.Direction.{DecodeContext, Role, client, server}
use tapgres.Decode.Messages.{
  FrontendMessage, negotiation_none, postgres_ssl, postgres_gss, BackendMessage,
}
use tapgres.Decode.Emit.{Clock}
use tapgres.Decode.Emit.Counts.{message_count, line_count, out-counts}
use tapgres.Decode.Drain.{
  Drain, Wire, Decoded, incomplete, decoded, undecodable, is_peek, show_frontend, handle_frontend,
  handle_backend, count_message, decode_error, with_buffer, frontend_round, backend_round,
  drain_frontend, drain_backend, drain_direction, drain_by_role,
}
use tapgres.Decode.Drain.Counts.{Shown, peeked, show_frontend-Shown, show_backend-Shown}

-- The crate's behaviour that the program relies on: a message takes a byte at least, an incomplete
-- one is left in the buffer, and so is the peek at a start-up without negotiation, which comes only
-- while the context awaits one.
pub record Documented (wire : Wire) : Type 0 where
  pub frontend_incomplete :
      (ctx : DecodeContext) (b left : Bytes) → wire.frontend ctx b ≡ incomplete left → left ≡ b
  pub frontend_message :
      (ctx : DecodeContext) (b left : Bytes) (msg : FrontendMessage)
      → wire.frontend ctx b ≡ decoded msg left
      → is_peek msg ≡ false
      → length left < length b
  pub frontend_peek :
      (ctx : DecodeContext) (b left : Bytes) (msg : FrontendMessage)
      → wire.frontend ctx b ≡ decoded msg left
      → is_peek msg ≡ true
      → (left ≡ b) × (ctx.awaiting_frontend_ssl ≡ true)
  pub backend_incomplete :
      (ctx : DecodeContext) (b left : Bytes) → wire.backend ctx b ≡ incomplete left → left ≡ b
  pub backend_message :
      (ctx : DecodeContext) (b left : Bytes) (msg : BackendMessage)
      → wire.backend ctx b ≡ decoded msg left
      → length left < length b

-- What draining leaves of `d`: who the direction is and its segments; each message counted has been
-- emitted once, and each byte has been counted or is still in the buffer, unless it was lost to a
-- decoding error, which a line reports.
pub record Drained (d r : Drain) : Type 0 where
  pub role : r.dir.role ≡ d.dir.role
  pub client : r.dir.client ≡ d.dir.client
  pub next_seq : r.dir.next_seq ≡ d.dir.next_seq
  pub ooo : r.dir.ooo ≡ d.dir.ooo
  pub counted : message_count r.log + d.outcome.msgs ≡ message_count d.log + r.outcome.msgs
  pub lines : line_count d.log ≤ line_count r.log
  pub bounded : r.outcome.bytes + length r.dir.rxbuf ≤ d.outcome.bytes + length d.dir.rxbuf
  pub conserved :
      line_count r.log ≡ line_count d.log
      → r.outcome.bytes + length r.dir.rxbuf ≡ d.outcome.bytes + length d.dir.rxbuf
  pub encrypted : d.outcome.encrypted ≡ true → r.outcome.encrypted ≡ true

Drained-refl : (d : Drain) (left : Bytes) → left ≡ d.dir.rxbuf → Drained d (with_buffer left d)
Drained-refl d left e = record {
  role = refl;
  client = refl;
  next_seq = refl;
  ooo = refl;
  counted = refl;
  lines = omega arith;
  bounded = omega (arith, ap length e);
  conserved = λ _. omega (arith, ap length e);
  encrypted = λ e. e;
}

Drained-trans : {d r q : Drain} → Drained d r → Drained r q → Drained d q
Drained-trans f g = record {
  role = g.role ∙ f.role;
  client = g.client ∙ f.client;
  next_seq = g.next_seq ∙ f.next_seq;
  ooo = g.ooo ∙ f.ooo;
  counted = omega (arith, f.counted, g.counted);
  lines = omega (arith, f.lines, g.lines);
  bounded = omega (arith, f.bounded, g.bounded);
  conserved = λ e.
      g.conserved (omega (arith, e, f.lines, g.lines))
      ∙ f.conserved (omega (arith, e, f.lines, g.lines));
  encrypted = λ e. g.encrypted (f.encrypted e);
}

decode_error-Drained :
    (role : Role) (e : Text) (d : Drain) (left : Bytes)
    → Drained d (decode_error role e (with_buffer left d))
unfolding decode_error
decode_error-Drained role e d left = record {
  role = refl;
  client = refl;
  next_seq = refl;
  ooo = refl;
  counted = omega (arith, (out-counts _ d.log).0);
  lines = omega (arith, (out-counts _ d.log).1);
  bounded = omega arith;
  conserved = λ f. absurd (omega (arith, f, (out-counts _ d.log).1));
  encrypted = λ f. f;
}

-- A message that is counted and shown.
counted-Drained :
    (d r : Drain) (left : Bytes)
    → length left ≤ length d.dir.rxbuf
    → Shown 1 (count_message (length d.dir.rxbuf - length left) (with_buffer left d)) r
    → Drained d r
counted-Drained d r left h s = record {
  role = s.role;
  client = s.client;
  next_seq = s.next_seq;
  ooo = s.ooo;
  counted = omega (arith, s.messages, s.msgs);
  lines = omega (arith, s.lines);
  bounded = omega (arith, s.bytes, ap length s.rxbuf);
  conserved = λ _. omega (arith, s.bytes, ap length s.rxbuf);
  encrypted = s.encrypted;
}

peeked-Drained :
    (d r : Drain) (left : Bytes) → left ≡ d.dir.rxbuf → Shown 0 (with_buffer left d) r → Drained d r
peeked-Drained d r left e s = record {
  role = s.role;
  client = s.client;
  next_seq = s.next_seq;
  ooo = s.ooo;
  counted = omega (arith, s.messages, s.msgs);
  lines = omega (arith, s.lines);
  bounded = omega (arith, s.bytes, ap length s.rxbuf, ap length e);
  conserved = λ _. omega (arith, s.bytes, ap length s.rxbuf, ap length e);
  encrypted = s.encrypted;
}

abbrev Ends : Drain → Option Drain → Type 0
Ends d o = (r : Drain) × (o ≡ some r) × Drained d r

-- What is still to do: a round for each byte, and one for a peek.
abbrev measure : Drain → ℕ
measure d = length d.dir.rxbuf + (if d.dir.ctx.awaiting_frontend_ssl then 1 else 0)

waits_no_more :
    (clock : Clock) (msg : FrontendMessage) (d : Drain)
    → d.dir.ctx.awaiting_frontend_ssl ≡ false
    → (show_frontend clock msg d).0.dir.ctx.awaiting_frontend_ssl ≡ false
unfolding show_frontend
waits_no_more clock negotiation_none d e = refl
waits_no_more clock postgres_ssl d e = refl
waits_no_more clock postgres_gss d e = refl
waits_no_more clock _ d e = e

go_on :
    (d next : Drain) (more : Bool) (again : Drain → Option Drain)
    → Drained d next
    → Ends next (again next)
    → Ends d (elim more [ true ↦ again next | false ↦ some next ])
go_on d next true again f (r, e, g) = (r, e, Drained-trans f g)
go_on d next false again f g = (next, refl, f)

handle_real :
    (clock : Clock) (msg : FrontendMessage) (n : ℕ) (d : Drain)
    → is_peek msg ≡ false
    → Path
        (Drain × Bool)
        (handle_frontend clock msg n d)
        (show_frontend clock msg (count_message n d))
unfolding handle_frontend
handle_real clock msg n d e = rw e refl

handle_peek :
    (clock : Clock) (msg : FrontendMessage) (n : ℕ) (d : Drain)
    → is_peek msg ≡ true
    → Path (Drain × Bool) (handle_frontend clock msg n d) (show_frontend clock negotiation_none d)
unfolding handle_frontend
handle_peek clock negotiation_none n d e = refl
handle_peek clock _ n d e = cc

-- A frontend message that has been handled accounts for itself and leaves less to do.
record Advanced (d next : Drain) : Type 0 where
  drained : Drained d next
  less : measure next < measure d

real-Advanced :
    (clock : Clock) (msg : FrontendMessage) (d : Drain) (left : Bytes)
    → is_peek msg ≡ false
    → length left < length d.dir.rxbuf
    → Advanced d
        (show_frontend clock msg
          (count_message (length d.dir.rxbuf - length left) (with_buffer left d))).0
real-Advanced clock msg d left e h =
    let before = count_message (length d.dir.rxbuf - length left) (with_buffer left d) in
    let s = show_frontend-Shown clock msg before e in
    record {
      drained = counted-Drained d (show_frontend clock msg before).0 left (omega arith) s;
      less = elim (Bool-cases d.dir.ctx.awaiting_frontend_ssl) [
        | inl b ↦ ground (arith, ap length s.rxbuf)
        | inr b ↦ ground (arith, ap length s.rxbuf, waits_no_more clock msg before b)
      ];
    }

peek-Advanced :
    (clock : Clock) (d : Drain) (left : Bytes)
    → left ≡ d.dir.rxbuf
    → d.dir.ctx.awaiting_frontend_ssl ≡ true
    → Advanced d (show_frontend clock negotiation_none (with_buffer left d)).0
unfolding show_frontend
peek-Advanced clock d left e b = record {
  drained = peeked-Drained d _ left e (peeked clock (with_buffer left d));
  less = ground (arith, ap length e);
}

either :
    (b : Bool) (d : Drain) (o : Option Drain)
    → Ends d (some d)
    → Ends d o
    → Ends d (if b then some d else o)
either true d o f g = f
either false d o f g = g

module _ (wire : Wire) (clock : Clock) (doc : Documented wire) where
  frontend_round-Ends :
      (again : Drain → Option Drain) (o : Decoded FrontendMessage) (d : Drain)
      → ((next : Drain) → measure next < measure d → Ends next (again next))
      → wire.frontend d.dir.ctx d.dir.rxbuf ≡ o
      → Ends d (frontend_round clock again o d)
  unfolding frontend_round
  frontend_round-Ends again (incomplete left) d ih e =
      (with_buffer left d, refl, Drained-refl d left (doc.frontend_incomplete _ _ left e))
  frontend_round-Ends again (undecodable t left) d ih e =
      (_, refl, decode_error-Drained client t d left)
  frontend_round-Ends again (decoded msg left) d ih e = go (Bool-cases (is_peek msg))
    where
      after : Drain × Bool → Type 0
      after p = Ends d (elim p.1 [ true ↦ again p.0 | false ↦ some p.0 ])

      advanced : (p : Drain × Bool) → Advanced d p.0 → after p
      advanced p a = go_on d p.0 p.1 again a.drained (ih p.0 a.less)

      go :
          (is_peek msg ≡ true) ⊎ (is_peek msg ≡ false)
          → after
              (handle_frontend clock msg (length d.dir.rxbuf - length left) (with_buffer left d))
      go (inl peek) =
          let (same, waiting) = doc.frontend_peek _ _ left msg e peek in
          subst after (sym (handle_peek clock msg _ (with_buffer left d) peek)) (
            advanced (show_frontend clock negotiation_none (with_buffer left d))
              (peek-Advanced clock d left same waiting))
      go (inr real) = subst after (sym (handle_real clock msg _ (with_buffer left d) real)) (
          advanced
            (show_frontend clock msg
              (count_message (length d.dir.rxbuf - length left) (with_buffer left d)))
            (real-Advanced clock msg d left real (doc.frontend_message _ _ left msg e real)))

  drain_frontend-Ends :
      (fuel : ℕ) (d : Drain) → measure d < fuel → Ends d (drain_frontend wire clock fuel d)
  unfolding drain_frontend
  drain_frontend-Ends zero d h = absurd (omega arith)
  drain_frontend-Ends (suc fuel) d h =
      frontend_round-Ends (drain_frontend wire clock fuel) _ d
        (λ next less. drain_frontend-Ends fuel next (omega arith)) refl

  backend_round-Ends :
      (again : Drain → Option Drain) (o : Decoded BackendMessage) (d : Drain)
      → ((next : Drain) → length next.dir.rxbuf < length d.dir.rxbuf → Ends next (again next))
      → wire.backend d.dir.ctx d.dir.rxbuf ≡ o
      → Ends d (backend_round clock wire.debug again o d)
  unfolding backend_round handle_backend
  backend_round-Ends again (incomplete left) d ih e =
      (with_buffer left d, refl, Drained-refl d left (doc.backend_incomplete _ _ left e))
  backend_round-Ends again (undecodable t left) d ih e =
      (_, refl, decode_error-Drained server t d left)
  backend_round-Ends again (decoded msg left) d ih e =
      let less = doc.backend_message _ _ left msg e in
      let before = count_message (length d.dir.rxbuf - length left) (with_buffer left d) in
      let s = show_backend-Shown clock wire.debug msg before in
      let (r, ends, drained) =
        ih
          (handle_backend clock wire.debug msg (length d.dir.rxbuf - length left)
            (with_buffer left d))
          (omega (arith, ap length s.rxbuf)) in
      (r, ends, Drained-trans (counted-Drained d _ left (omega arith) s) drained)

  drain_backend-Ends :
      (fuel : ℕ) (d : Drain) → length d.dir.rxbuf < fuel → Ends d (drain_backend wire clock fuel d)
  unfolding drain_backend
  drain_backend-Ends zero d h = absurd (omega arith)
  drain_backend-Ends (suc fuel) d h =
      backend_round-Ends (drain_backend wire clock fuel) _ d
        (λ next less. drain_backend-Ends fuel next (omega arith)) refl

  drain_by_role-Ends : (role : Role) (d : Drain) → Ends d (drain_by_role wire clock role d)
  drain_by_role-Ends client d = drain_frontend-Ends (length d.dir.rxbuf + 3) d (ground arith)
  drain_by_role-Ends server d = drain_backend-Ends (length d.dir.rxbuf + 3) d (omega arith)

  -- With a decoder as documented, draining any direction ends, whatever its buffer holds: each message
  -- that it counts has been emitted once, each byte has been counted or is still in the buffer unless
  -- a line reports a decoding error, and it leaves the direction's segments and sequence number alone.
  pub drain_direction-Drained :
      (d : Drain) → (r : Drain) × (drain_direction wire clock d ≡ some r) × Drained d r
  unfolding drain_direction
  drain_direction-Drained d =
      either d.outcome.encrypted d _ (d, refl, Drained-refl d d.dir.rxbuf refl)
        (drain_by_role-Ends d.dir.role d)
