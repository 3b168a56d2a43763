-- ===== src/Decode/Drain/Counts.antt =====
-- What one handled message changes: it is emitted once and counted once, with the bytes it took.
use tapgres.Prelude.{ℕ, ◌+◌, ◌≡◌, refl, Bool, true, false, Option, none, some, List, arith}
use tapgres.Bytes.{Bytes}
use tapgres.Event.{Text, FieldSummary}
use tapgres.Direction.{DecodeContext}
use tapgres.Decode.Messages.{
  FrontendMessage, negotiation_none, BackendMessage, data_row, ssl_response, gss_enc_response,
  Reply, accept,
}
use tapgres.Decode.Emit.{Clock, Log}
use tapgres.Decode.Emit.Counts.{message_count, line_count, Grown, emit-Grown, warn-Grown}
use tapgres.Decode.Drain.{
  Drain, ServerNegotiationWait, show_frontend, show_backend, show_ssl_reply, show_data_row, is_peek,
}

-- A handler that has emitted `n` messages and left all else that counts alone.
pub record Shown (n : ℕ) (d r : Drain) : Type 0 where
  pub role : r.dir.role ≡ d.dir.role
  pub client : r.dir.client ≡ d.dir.client
  pub next_seq : r.dir.next_seq ≡ d.dir.next_seq
  pub ooo : r.dir.ooo ≡ d.dir.ooo
  pub rxbuf : r.dir.rxbuf ≡ d.dir.rxbuf
  pub messages : message_count r.log ≡ message_count d.log + n
  pub lines : line_count r.log ≡ line_count d.log
  pub msgs : r.outcome.msgs ≡ d.outcome.msgs
  pub bytes : r.outcome.bytes ≡ d.outcome.bytes
  pub encrypted : d.outcome.encrypted ≡ true → r.outcome.encrypted ≡ true

-- A handler that writes nothing of a direction but the context and the description, and nothing of
-- the outcome but the wait and the flag.
Shown-one :
    (d : Drain) (log : Log) (ctx : DecodeContext) (desc : Option (List FieldSummary))
    (w : ServerNegotiationWait) (b : Bool)
    → (d.outcome.encrypted ≡ true → b ≡ true)
    → Grown d.log log
    → Shown 1 d (record {
      dir = record (d.dir) { ctx = ctx; row_desc = desc };
      outcome = record (d.outcome) { server_negotiation_wait = w; encrypted = b };
      log = log;
    })
Shown-one d log ctx desc w b e g = record {
  role = refl;
  client = refl;
  next_seq = refl;
  ooo = refl;
  rxbuf = refl;
  messages = g.messages;
  lines = g.lines;
  msgs = refl;
  bytes = refl;
  encrypted = e;
}

-- A change of the context beforehand does not count.
elsewhere :
    (d : Drain) (ctx : DecodeContext) (r : Drain)
    → Shown 1 (record d { dir = record (d.dir) { ctx = ctx } }) r
    → Shown 1 d r
elsewhere d ctx r h = record {
  role = h.role;
  client = h.client;
  next_seq = h.next_seq;
  ooo = h.ooo;
  rxbuf = h.rxbuf;
  messages = h.messages;
  lines = h.lines;
  msgs = h.msgs;
  bytes = h.bytes;
  encrypted = h.encrypted;
}

module _ (clock : Clock) where
  pub peeked : (d : Drain) → Shown 0 d (show_frontend clock negotiation_none d).0
  unfolding show_frontend
  peeked d = record {
    role = refl;
    client = refl;
    next_seq = refl;
    ooo = refl;
    rxbuf = refl;
    messages = omega arith;
    lines = refl;
    msgs = refl;
    bytes = refl;
    encrypted = λ e. e;
  }

  pub show_frontend-Shown :
      (msg : FrontendMessage) (d : Drain)
      → is_peek msg ≡ false
      → Shown 1 d (show_frontend clock msg d).0
  unfolding show_frontend
  show_frontend-Shown negotiation_none d e = cc
  show_frontend-Shown _ d e =
      Shown-one d _ _ _ _ _ (λ b. b) (emit-Grown clock d.dir.role d.dir.client _ _ _ d.log)

  show_ssl_reply-Shown :
      (kind accepted : Text) (r : Reply) (d : Drain)
      → Shown 1 d (show_ssl_reply clock kind accepted r d)
  unfolding show_ssl_reply
  show_ssl_reply-Shown kind accepted accept d =
      Shown-one d _ _ _ _ _ (λ _. refl) (warn-Grown clock d.dir.role d.dir.client _ d.log)
  show_ssl_reply-Shown kind accepted _ d =
      Shown-one d _ _ _ _ _ (λ b. b) (emit-Grown clock d.dir.role d.dir.client _ _ _ d.log)

  show_data_row-Shown :
      (field_count : ℕ) (payload : Bytes) (desc : Option (List FieldSummary)) (d : Drain)
      → Shown 1 d (show_data_row clock field_count payload desc d)
  unfolding show_data_row
  show_data_row-Shown field_count payload none d =
      Shown-one d _ _ _ _ _ (λ b. b) (emit-Grown clock d.dir.role d.dir.client _ _ _ d.log)
  show_data_row-Shown field_count payload (some desc) d =
      Shown-one d _ _ _ _ _ (λ b. b) (emit-Grown clock d.dir.role d.dir.client _ _ _ d.log)

  -- Every backend message is emitted once.
  pub show_backend-Shown :
      (debug : Text → Text) (msg : BackendMessage) (d : Drain)
      → Shown 1 d (show_backend clock debug msg d)
  unfolding show_backend
  show_backend-Shown debug (data_row field_count payload) d =
      show_data_row-Shown field_count payload d.dir.row_desc d
  show_backend-Shown debug (ssl_response r) d = elsewhere d _ _ (show_ssl_reply-Shown _ _ r _)
  show_backend-Shown debug (gss_enc_response r) d = elsewhere d _ _ (show_ssl_reply-Shown _ _ r _)
  show_backend-Shown debug _ d =
      Shown-one d _ _ _ _ _ (λ b. b) (emit-Grown clock d.dir.role d.dir.client _ _ _ d.log)
