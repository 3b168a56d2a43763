-- ===== src/Direction/InSync.antt =====
-- Reassembly is safe: whatever segments of a sender's stream arrive, in whatever order, repeated or
-- overlapping, the bytes delivered are a run of that stream without a gap.
use tapgres.Prelude.{
  ℕ, suc, ◌+◌, ◌-◌, ◌%◌, ◌^◌, ◌≤◌, ◌<◌, max, ltb→lt, ◌≡◌, refl, sym, ap, ◌∙◌, inl, inr, Bool, true,
  false, Option, none, some, ◌∷◌, ◌++◌, append_assoc, ◌&&◌, arith, ltb, leb, ◌==◌, if◌then◌else◌,
  length, drop, All, window, window-append, drop-window, Bool-cases, length-drop,
}
use tapgres.Bytes.{Bytes, wrapping_add, wrapping_sub, u32_mod}
use tapgres.Direction.{
  Segments, Direction, lookup, without, deliver, feed_at, feed, negated, anchor,
}
use tapgres.Direction.Segments.{All-without, All-insert, All-lookup, drain_ooo_inv, lookup-insert}

-- The sequence number of byte `n` of a stream whose first byte has the number `isn`.
abbrev pub seq_of : ℕ → ℕ → ℕ
seq_of isn n = (isn + n) % u32_mod

-- A segment that holds the bytes of the stream from some place on, under that place's number.
pub record IsPiece (stream : Bytes) (isn : ℕ) (segment : ℕ × Bytes) : Type 0 where
  pub pos : ℕ
  pub key : segment.0 ≡ seq_of isn pos
  pub fits : pos + length segment.1 ≤ length stream
  pub bytes : segment.1 ≡ window stream pos (length segment.1)

-- `consumed` stands for the bytes that the decoder has taken off the buffer: together with the
-- buffer they are the stream from `start` to the next byte wanted.
pub record InSync (stream : Bytes) (isn start : ℕ) (consumed : Bytes) (d : Direction) : Type 0 where
  pub upto : ℕ
  pub next : d.next_seq ≡ some (seq_of isn upto)
  pub after : start ≤ upto
  pub within : upto ≤ length stream
  pub delivered : consumed ++ d.rxbuf ≡ window stream start (upto - start)
  pub pieces : All (IsPiece stream isn) d.ooo

-- How far the run reaches once a segment at `pos` has arrived: one that does not start ahead of the
-- run extends it to the segment's end.
abbrev pub reach : ℕ → ℕ → ℕ → ℕ
reach upto pos n = if ltb upto pos then upto else max upto (pos + n)

module _ (stream : Bytes) (isn start : ℕ) (consumed : Bytes) (short : length stream < 2 ^ 31) where
  -- A piece that starts where the delivered run ends extends the run by its length.
  extend :
      (rxbuf b : Bytes) (upto : ℕ)
      → start ≤ upto
      → consumed ++ rxbuf ≡ window stream start (upto - start)
      → b ≡ window stream upto (length b)
      → consumed ++ (rxbuf ++ b) ≡ window stream start (upto + length b - start)
  extend rxbuf b upto after d e =
      let sum : upto + length b - start ≡ upto - start + length b = omega arith in
      sym (append_assoc consumed rxbuf b)
      ∙ rw (d, sum)
          (ap (λ l. window stream start (upto - start) ++ l) e
            ∙ window-append stream start (upto - start) (length b) upto (omega arith))

  same_place :
      (p q : ℕ) → p ≤ length stream → q ≤ length stream → seq_of isn p ≡ seq_of isn q → p ≡ q
  same_place p q hp hq e = omega arith

  -- What the draining loop keeps: the next number, the run, and a place that it has passed.
  record Run (floor : ℕ) (rxbuf : Bytes) (adv : ℕ) (ooo : Segments) : Type 0 where
    upto : ℕ
    next : adv ≡ seq_of isn upto
    passed : floor ≤ upto
    after : start ≤ upto
    within : upto ≤ length stream
    delivered : consumed ++ rxbuf ≡ window stream start (upto - start)
    pieces : All (IsPiece stream isn) ooo

  piece_at :
      (b : Bytes) (upto : ℕ) (p : IsPiece stream isn (seq_of isn upto, b))
      → upto ≤ length stream
      → (b ≡ window stream upto (length b)) × (upto + length b ≤ length stream)
  piece_at b upto p h =
      let e : p.pos ≡ upto = same_place p.pos upto (omega (arith, p.fits)) h (sym p.key) in
      (rw e at p.bytes, rw e at p.fits)

  Run-weaken :
      (floor low : ℕ) (rxbuf : Bytes) (adv : ℕ) (ooo : Segments)
      → low ≤ floor
      → Run floor rxbuf adv ooo
      → Run low rxbuf adv ooo
  Run-weaken floor low rxbuf adv ooo h r = record {
    upto = r.upto;
    next = r.next;
    passed = omega (arith, r.passed);
    after = r.after;
    within = r.within;
    delivered = r.delivered;
    pieces = r.pieces;
  }

  Run-append :
      (floor : ℕ) (rxbuf : Bytes) (adv : ℕ) (ooo rest : Segments) (b : Bytes)
      → IsPiece stream isn (adv, b)
      → All (IsPiece stream isn) rest
      → (r : Run floor rxbuf adv ooo)
      → Run (r.upto + length b) (rxbuf ++ b) (wrapping_add adv (length b)) rest
  Run-append floor rxbuf adv ooo rest b p all r =
      let (e, fits) = piece_at b r.upto (rw r.next at p) r.within in
      record {
        upto = r.upto + length b;
        next = rw r.next (omega arith);
        passed = omega arith;
        after = omega (arith, r.after);
        within = fits;
        delivered = extend rxbuf b r.upto r.after r.delivered e;
        pieces = all;
      }

  Run-round :
      (floor : ℕ) (rxbuf : Bytes) (adv : ℕ) (ooo : Segments) (b : Bytes)
      → lookup adv ooo ≡ some b
      → Run floor rxbuf adv ooo
      → Run floor (rxbuf ++ b) (wrapping_add adv (length b)) (without adv ooo)
  Run-round floor rxbuf adv ooo b e r =
      Run-weaken (r.upto + length b) floor _ _ _ (omega (arith, r.passed)) (
        Run-append floor rxbuf adv ooo (without adv ooo) b (All-lookup _ adv ooo b r.pieces e)
          (All-without _ adv ooo r.pieces) r)

  -- The state behind a call of `feed`: in step with the stream, past `floor`, and with no segment
  -- left that could be delivered.
  pub record Delivered (floor : ℕ) (d : Direction) : Type 0 where
    pub sync : InSync stream isn start consumed d
    pub passed : floor ≤ sync.upto
    pub exhausted : lookup (seq_of isn sync.upto) d.ooo ≡ none

  deliver-Delivered :
      (d : Direction) (cur : ℕ) (chunk : Bytes) (floor : ℕ)
      → Run floor (d.rxbuf ++ chunk) (wrapping_add cur (length chunk)) d.ooo
      → Delivered floor (deliver d cur chunk)
  unfolding deliver
  deliver-Delivered d cur chunk floor r =
      let (s, none_left) =
        drain_ooo_inv (Run floor) (Run-round floor) (suc (length d.ooo)) (d.rxbuf ++ chunk)
          (wrapping_add cur (length chunk)) d.ooo (omega arith) r in
      record {
        sync = record {
          upto = s.upto;
          next = ap (λ n. some n) s.next;
          after = s.after;
          within = s.within;
          delivered = s.delivered;
          pieces = s.pieces;
        };
        passed = s.passed;
        exhausted = rw s.next at none_left;
      }

  module _ (d : Direction) (s : InSync stream isn start consumed d) (seq : ℕ) (bytes : Bytes)
      (p : IsPiece stream isn (seq, bytes)) where
    run : (floor : ℕ) → floor ≤ s.upto → Run floor d.rxbuf (seq_of isn s.upto) d.ooo
    run floor h = record {
      upto = s.upto;
      next = refl;
      passed = h;
      after = s.after;
      within = s.within;
      delivered = s.delivered;
      pieces = s.pieces;
    }

    -- Delivering bytes that continue the run.
    delivers :
        (cur : ℕ) (chunk : Bytes)
        → cur ≡ seq_of isn s.upto
        → s.upto + length chunk ≤ length stream
        → chunk ≡ window stream s.upto (length chunk)
        → Delivered (s.upto + length chunk) (deliver d cur chunk)
    unfolding run
    delivers cur chunk key fits e =
        let q : IsPiece stream isn (seq_of isn s.upto, chunk) = record {
          pos = s.upto;
          key = refl;
          fits = fits;
          bytes = e;
        } in
        rw key (
          deliver-Delivered d (seq_of isn s.upto) chunk (s.upto + length chunk) (
            Run-append 0 d.rxbuf (seq_of isn s.upto) d.ooo d.ooo chunk q s.pieces
              (run 0 (omega arith))))

    -- A segment ahead of the run waits in the map.
    feed_at-ahead :
        s.upto < p.pos
        → lookup (seq_of isn s.upto) d.ooo ≡ none
        → Delivered s.upto (feed_at d (seq_of isn s.upto) seq bytes)
    unfolding feed_at
    feed_at-ahead ahead ex =
        let diff : wrapping_sub seq (seq_of isn s.upto) ≡ p.pos - s.upto =
          omega (arith, p.key, p.fits) in
        let far : (ltb 0 (p.pos - s.upto) && ltb (p.pos - s.upto) (2 ^ 31)) ≡ true =
          ground (arith, p.fits) in
        let apart : (seq == seq_of isn s.upto) ≡ false = ground (arith, p.fits, p.key) in
        rw diff (
          rw far (record {
            sync = record {
              upto = s.upto;
              next = s.next;
              after = s.after;
              within = s.within;
              delivered = s.delivered;
              pieces = All-insert _ seq bytes d.ooo p s.pieces;
            };
            passed = omega arith;
            exhausted = rw lookup-insert (rw apart ex);
          }))

    -- The segment that is wanted next.
    feed_at-next :
        p.pos ≡ s.upto → Delivered (s.upto + length bytes) (feed_at d (seq_of isn s.upto) seq bytes)
    unfolding feed_at
    feed_at-next here =
        let diff : wrapping_sub seq (seq_of isn s.upto) ≡ 0 = omega (arith, p.key) in
        let key : seq ≡ seq_of isn s.upto = omega (arith, p.key) in
        rw diff (delivers seq bytes key (rw here at p.fits) (rw here at p.bytes))

    feed_at-behind :
        p.pos < s.upto
        → lookup (seq_of isn s.upto) d.ooo ≡ none
        → Delivered (max s.upto (p.pos + length bytes)) (feed_at d (seq_of isn s.upto) seq bytes)
    unfolding feed_at
    feed_at-behind behind ex =
        let back = s.upto - p.pos in
        let diff : wrapping_sub seq (seq_of isn s.upto) ≡ u32_mod - back =
          omega (arith, p.key, s.within) in
        let near : (ltb 0 (u32_mod - back) && ltb (u32_mod - back) (2 ^ 31)) ≡ false =
          ground (arith, s.within) in
        let other : (u32_mod - back == 0) ≡ false = ground (arith, s.within) in
        let skip : negated (u32_mod - back) ≡ back = ground (arith, s.within) in
        rw diff (rw near (rw other (rw skip (skipped (leb (length bytes) back) refl))))
      where
        skipped :
            (b : Bool)
            → leb (length bytes) (s.upto - p.pos) ≡ b
            → Delivered (max s.upto (p.pos + length bytes)) (
                if b
                then d
                else deliver d (wrapping_add seq (s.upto - p.pos)) (drop (s.upto - p.pos) bytes))
        skipped true e = record { sync = s; passed = ground arith; exhausted = ex }
        skipped false e =
            let size : length (drop (s.upto - p.pos) bytes) ≡ length bytes - (s.upto - p.pos) =
              length-drop (s.upto - p.pos) bytes in
            let reach : max s.upto (p.pos + length bytes)
                ≡ s.upto + length (drop (s.upto - p.pos) bytes) =
              ground (arith, size) in
            rw reach (
              delivers (wrapping_add seq (s.upto - p.pos)) (drop (s.upto - p.pos) bytes)
                (omega (arith, p.key)) (omega (arith, size, p.fits))
                (ap (λ l. drop (s.upto - p.pos) l) p.bytes
                  ∙ rw size (
                      drop-window stream p.pos (length bytes) (s.upto - p.pos) s.upto
                        (omega arith))))

    feed_at-Delivered :
        lookup (seq_of isn s.upto) d.ooo ≡ none
        → Delivered (reach s.upto p.pos (length bytes)) (feed_at d (seq_of isn s.upto) seq bytes)
    feed_at-Delivered ex = elim (Bool-cases (ltb s.upto p.pos)) [
      | inl ahead ↦ rw ahead (feed_at-ahead (ltb→lt _ _ ahead) ex)
      | inr e ↦ elim (Bool-cases (ltb p.pos s.upto)) [
        | inl behind ↦ rw e (feed_at-behind (ltb→lt _ _ behind) ex)
        | inr e' ↦
            let here : p.pos ≡ s.upto = ground arith in
            let far : max s.upto (p.pos + length bytes) ≡ s.upto + length bytes = omega arith in
            rw e (rw far (feed_at-next here))
      ]
    ]

  -- For a stream below 2^31 bytes, a data segment of it keeps a direction in step with the sender:
  -- the bytes delivered stay a run of the stream, at least as long as before, and a segment that
  -- does not start ahead of that run is delivered to its end; no buffered segment that starts at the
  -- next byte wanted is left waiting.
  pub feed-Delivered :
      (d : Direction) {floor : ℕ} (h : Delivered floor d) (seq x : ℕ) (rest : Bytes)
      (p : IsPiece stream isn (seq, x ∷ rest))
      → Delivered (reach h.sync.upto p.pos (length (x ∷ rest))) (feed d seq false (x ∷ rest))
  unfolding feed
  feed-Delivered d h seq x rest p =
      let next : anchor d seq ≡ seq_of isn h.sync.upto = anchor-some d.next_seq h.sync.next in
      rw next (
        feed_at-Delivered (record d { next_seq = some (seq_of isn h.sync.upto) })
          (record {
            upto = h.sync.upto;
            next = refl;
            after = h.sync.after;
            within = h.sync.within;
            delivered = h.sync.delivered;
            pieces = h.sync.pieces;
          })
          seq (x ∷ rest) p h.exhausted)
    where
      anchor-some : {k : ℕ} (o : Option ℕ) → o ≡ some k → elim o [ none ↦ seq | some n ↦ n ] ≡ k
      anchor-some none e = cc
      anchor-some (some n) e = cc

  pub Delivered-weaken :
      (d : Direction) {floor low : ℕ} → low ≤ floor → Delivered floor d → Delivered low d
  Delivered-weaken d h r = record {
    sync = r.sync;
    passed = omega (arith, r.passed);
    exhausted = r.exhausted;
  }
