-- ===== src/Direction/Reassembly.antt =====
-- A direction fed a SYN and then any segments of a stream.
use tapgres.Prelude.{
  ℕ, ◌+◌, ◌^◌, ◌≤◌, ◌<◌, ◌≡◌, refl, ap, ◌∙◌, sym, true, false, some, List, [], ◌∷◌, arith, length,
  take, All, drop, window, flatten, length-drop, length-append, take-append_length,
  drop-append_length, drop-drop, take_all,
}
use tapgres.Bytes.{Bytes}
use tapgres.Event.{SocketAddr}
use tapgres.Direction.{Direction, DecodeContext, Role, new, feed, lookup}
use tapgres.Direction.InSync.{seq_of, IsPiece, Delivered-weaken, Delivered, feed-Delivered}

-- The calls of `feed` for one segment after another, none of them a SYN.
unfoldable pub feed_all : Direction → List (ℕ × Bytes) → Direction
feed_all d [] = d
feed_all d ((seq, bytes) ∷ segments) = feed_all (feed d seq false bytes) segments

abbrev pub IsData : ℕ × Bytes → Type 0
IsData (seq, bytes) = 0 < length bytes

abbrev pub opened : DecodeContext → Role → SocketAddr → ℕ → Direction
opened ctx role endpoint seq = feed (new ctx role endpoint) seq true []

module _ (stream : Bytes) (isn start : ℕ) (consumed : Bytes) (short : length stream < 2 ^ 31) where
  feed_all-Delivered :
      (segments : List (ℕ × Bytes)) (d : Direction) {floor : ℕ}
      → All (IsPiece stream isn) segments
      → All IsData segments
      → Delivered stream isn start consumed short floor d
      → Delivered stream isn start consumed short floor (feed_all d segments)
  unfolding feed_all
  feed_all-Delivered [] d p q h = h
  feed_all-Delivered ((seq, []) ∷ segments) d p q h = absurd (omega (arith, q.0))
  feed_all-Delivered ((seq, x ∷ rest) ∷ segments) d p q h =
      let p₀ : IsPiece stream isn (seq, x ∷ rest) = p.0 in
      feed_all-Delivered segments (feed d seq false (x ∷ rest)) p.1 q.1 (
        Delivered-weaken stream isn start consumed short _ (ground (arith, h.passed))
          (feed-Delivered stream isn start consumed short d h seq x rest p₀))

pub opened-Delivered :
    (ctx : DecodeContext) (role : Role) (endpoint : SocketAddr) (seq : ℕ) (stream : Bytes)
    (short : length stream < 2 ^ 31)
    → Delivered stream (seq + 1) 0 [] short 0 (opened ctx role endpoint seq)
unfolding feed new lookup
opened-Delivered ctx role endpoint seq stream short = record {
  sync = record {
    upto = 0;
    next = ap (λ n. some n) (omega arith);
    after = omega arith;
    within = omega arith;
    delivered = refl;
    pieces = tt;
  };
  passed = omega arith;
  exhausted = refl;
}

-- After a SYN and any data segments of a stream below 2^31 bytes, whatever their order, overlap and
-- repetition, the buffer is a prefix of the stream, and the number wanted next is that of the byte
-- behind it.
pub reassembly_prefix :
    (ctx : DecodeContext) (role : Role) (endpoint : SocketAddr) (seq : ℕ) (stream : Bytes)
    (segments : List (ℕ × Bytes))
    → length stream < 2 ^ 31
    → All (IsPiece stream (seq + 1)) segments
    → All IsData segments
    → let d = feed_all (opened ctx role endpoint seq) segments in
      (n : ℕ) × (n ≤ length stream)
      × (d.rxbuf ≡ take n stream)
      × (d.next_seq ≡ some (seq_of (seq + 1) n))
reassembly_prefix ctx role endpoint seq stream segments short p q =
    let r =
      feed_all-Delivered stream (seq + 1) 0 [] short segments _ p q
        (opened-Delivered ctx role endpoint seq stream short) in
    (
      r.sync.upto,
      r.sync.within,
      r.sync.delivered ∙ ap (λ n. take n stream) (omega arith),
      r.sync.next,
    )

-- The segments of a stream cut into chunks, each under the number of its first byte.
pub numbered : ℕ → ℕ → List Bytes → List (ℕ × Bytes)
numbered isn pos [] = []
numbered isn pos (c ∷ chunks) = (seq_of isn pos, c) ∷ numbered isn (pos + length c) chunks

module _ (stream : Bytes) (isn : ℕ) (short : length stream < 2 ^ 31) where
  in_order-Delivered :
      (chunks : List Bytes) (pos : ℕ) (d : Direction)
      → drop pos stream ≡ flatten chunks
      → pos ≤ length stream
      → All (λ c. 0 < length c) chunks
      → Delivered stream isn 0 [] short pos d
      → Delivered stream isn 0 [] short (length stream) (feed_all d (numbered isn pos chunks))
  unfolding feed_all numbered flatten
  in_order-Delivered [] pos d e f q h =
      Delivered-weaken stream isn 0 [] short d (omega (arith, ap length e, length-drop pos stream))
        h
  in_order-Delivered ([] ∷ chunks) pos d e f q h = absurd (omega (arith, q.0))
  in_order-Delivered ((x ∷ c) ∷ chunks) pos d e f q h =
      let bytes : x ∷ c ≡ window stream pos (length (x ∷ c)) = sym (
        ap (λ l. take (length (x ∷ c)) l) e
        ∙ take-append_length (x ∷ c) (flatten chunks) (length (x ∷ c)) refl) in
      let fits : pos + length (x ∷ c) ≤ length stream =
        omega
          (arith, ap length e, length-drop pos stream, length-append (x ∷ c) (flatten chunks)) in
      let p : IsPiece stream isn (seq_of isn pos, x ∷ c) = record {
        pos = pos;
        key = refl;
        fits = fits;
        bytes = bytes;
      } in
      in_order-Delivered chunks (pos + length (x ∷ c)) (feed d (seq_of isn pos) false (x ∷ c))
        (sym (drop-drop (length (x ∷ c)) pos stream)
          ∙ ap (λ l. drop (length (x ∷ c)) l) e
          ∙ drop-append_length (x ∷ c) (flatten chunks) (length (x ∷ c)) refl)
        fits q.1
        (Delivered-weaken stream isn 0 [] short _ (ground (arith, h.passed))
          (feed-Delivered stream isn 0 [] short d h (seq_of isn pos) x c p))

-- A SYN and then the chunks of a stream below 2^31 bytes, none empty and in order, leave exactly the
-- stream in the buffer.
pub reassembly_in_order :
    (ctx : DecodeContext) (role : Role) (endpoint : SocketAddr) (seq : ℕ) (chunks : List Bytes)
    → length (flatten chunks) < 2 ^ 31
    → All (λ c. 0 < length c) chunks
    → (feed_all (opened ctx role endpoint seq) (numbered (seq + 1) 0 chunks)).rxbuf ≡ flatten chunks
reassembly_in_order ctx role endpoint seq chunks short q =
    let stream = flatten chunks in
    let r =
      in_order-Delivered stream (seq + 1) short chunks 0 _ refl (omega arith) q
        (opened-Delivered ctx role endpoint seq stream short) in
    r.sync.delivered
    ∙ ap (λ n. take n stream) (omega (arith, r.passed, r.sync.within))
    ∙ take_all (length stream) stream (omega arith)
