-- ===== src/Decode/Drain/Sample.antt =====
-- A wire protocol of one-byte messages, at which the decoder's hypotheses hold.
use tapgres.Prelude.{ℕ, zero, suc, ◌≡◌, ◌<◌, refl, Bool, true, false, [], ◌∷◌, arith, length}
use tapgres.Bytes.{Bytes}
use tapgres.Net.{v4}
use tapgres.Event.{SocketAddr}
use tapgres.Filter.{codes}
use tapgres.Direction.{DecodeContext}
use tapgres.Decode.Messages.{
  FrontendMessage, negotiation_none, sync, BackendMessage, parse_complete,
}
use tapgres.Decode.Emit.{Clock}
use tapgres.Decode.Drain.{Wire, Decoded, incomplete, decoded, undecodable, is_peek}
use tapgres.Decode.Drain.Total.{Documented}

abbrev pub local : ℕ → SocketAddr
local port = record { ip = v4 127 0 0 1; port = port }

abbrev pub context : DecodeContext
context = record {
  awaiting_frontend_ssl = true;
  awaiting_frontend_startup = true;
  awaiting_backend_ssl_response = false;
  awaiting_backend_gss_response = false;
}

abbrev pub clock : Clock
clock n = record { timestamp = codes "2026-01-01T00:00:00Z"; display_time = codes "00:00:00.000" }

-- Byte 0 is not decodable.
abbrev frontend : Bool → Bytes → Decoded FrontendMessage
frontend waits [] = incomplete []
frontend true (b ∷ rest) = decoded negotiation_none (b ∷ rest)
frontend false (zero ∷ rest) = undecodable (codes "bad") (zero ∷ rest)
frontend false (suc n ∷ rest) = decoded sync rest

abbrev backend : Bytes → Decoded BackendMessage
backend [] = incomplete []
backend (zero ∷ rest) = undecodable (codes "bad") (zero ∷ rest)
backend (suc n ∷ rest) = decoded parse_complete rest

abbrev pub wire : Wire
wire = record {
  frontend = λ ctx b. frontend ctx.awaiting_frontend_ssl b;
  backend = λ ctx b. backend b;
  debug = λ t. t;
}

frontend-incomplete :
    (waits : Bool) (b left : Bytes) → frontend waits b ≡ incomplete left → left ≡ b
frontend-incomplete waits [] left e = cc
frontend-incomplete true (n ∷ b) left e = cc
frontend-incomplete false (zero ∷ b) left e = cc
frontend-incomplete false (suc n ∷ b) left e = cc

frontend-message :
    (waits : Bool) (b left : Bytes) (msg : FrontendMessage)
    → frontend waits b ≡ decoded msg left
    → is_peek msg ≡ false
    → length left < length b
frontend-message waits [] left msg e f = cc
frontend-message true (n ∷ b) left msg e f = cc
frontend-message false (zero ∷ b) left msg e f = cc
frontend-message false (suc n ∷ b) left msg e f = let same : b ≡ left = cc in rw same (omega arith)

frontend-peek :
    (waits : Bool) (b left : Bytes) (msg : FrontendMessage)
    → frontend waits b ≡ decoded msg left
    → is_peek msg ≡ true
    → (left ≡ b) × (waits ≡ true)
frontend-peek waits [] left msg e f = cc
frontend-peek true (n ∷ b) left msg e f = (cc, refl)
frontend-peek false (zero ∷ b) left msg e f = cc
frontend-peek false (suc n ∷ b) left msg e f = cc

backend-incomplete : (b left : Bytes) → backend b ≡ incomplete left → left ≡ b
backend-incomplete [] left e = cc
backend-incomplete (zero ∷ b) left e = cc
backend-incomplete (suc n ∷ b) left e = cc

backend-message :
    (b left : Bytes) (msg : BackendMessage) → backend b ≡ decoded msg left → length left < length b
backend-message [] left msg e = cc
backend-message (zero ∷ b) left msg e = cc
backend-message (suc n ∷ b) left msg e = let same : b ≡ left = cc in rw same (omega arith)

pub wire-Documented : Documented wire
wire-Documented = record {
  frontend_incomplete = λ ctx b left e. frontend-incomplete ctx.awaiting_frontend_ssl b left e;
  frontend_message =
      λ ctx b left msg e f. frontend-message ctx.awaiting_frontend_ssl b left msg e f;
  frontend_peek = λ ctx b left msg e f. frontend-peek ctx.awaiting_frontend_ssl b left msg e f;
  backend_incomplete = λ ctx b left e. backend-incomplete b left e;
  backend_message = λ ctx b left msg e. backend-message b left msg e;
}
