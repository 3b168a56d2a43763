-- ===== src/Direction/Segments.antt =====
-- The map of out-of-order segments, and the loop that drains it.
use tapgres.Prelude.{
  ℕ, zero, suc, ◌≤◌, ◌<◌, ◌≡◌, inl, inr, none, some, [], ◌∷◌, ◌++◌, arith, ◌==◌, ==_iff,
  if◌then◌else◌, length, All, Bool-cases, Option-cases,
}
use tapgres.Bytes.{Bytes, wrapping_add}
use tapgres.Direction.{Segments, lookup, without, insert, drain_ooo}

pub lookup-without :
    (k j : ℕ) (m : Segments) → lookup j (without k m) ≡ (if k == j then none else lookup j m)
unfolding lookup without
lookup-without k j [] = ground arith
lookup-without k j ((i, b) ∷ m) = ground (arith, lookup-without k j m)

pub lookup-insert :
    (k j : ℕ) (b : Bytes) (m : Segments)
    → lookup j (insert k b m) ≡ (if k == j then some b else lookup j m)
unfolding lookup insert
lookup-insert k j b m = ground (arith, lookup-without k j m)

pub length-without-le : (k : ℕ) (m : Segments) → length (without k m) ≤ length m
unfolding without
length-without-le k [] = omega arith
length-without-le k ((j, b) ∷ m) = ground (arith, length-without-le k m)

pub length-without-lt :
    (k : ℕ) (m : Segments) (b : Bytes) → lookup k m ≡ some b → length (without k m) < length m
unfolding lookup without
length-without-lt k [] b h = cc
length-without-lt k ((j, c) ∷ m) b h =
    ground (arith, length-without-le k m, length-without-lt k m b)

module _ (P : ℕ × Bytes → Type 0) where
  pub All-without : (k : ℕ) (m : Segments) → All P m → All P (without k m)
  unfolding without
  All-without k [] h = tt
  All-without k ((j, b) ∷ m) h = elim (Bool-cases (j == k)) [
    | inl e ↦ rw e (All-without k m h.1)
    | inr e ↦ rw e (h.0, All-without k m h.1)
  ]

  pub All-insert : (k : ℕ) (b : Bytes) (m : Segments) → P (k, b) → All P m → All P (insert k b m)
  unfolding insert
  All-insert k b m p h = (p, All-without k m h)

  pub All-lookup : (k : ℕ) (m : Segments) (b : Bytes) → All P m → lookup k m ≡ some b → P (k, b)
  unfolding lookup
  All-lookup k [] b h e = cc
  All-lookup k ((j, c) ∷ m) b h e = elim (Bool-cases (j == k)) [
    | inl t ↦
        let same : j ≡ k = (==_iff j k).0 t in
        let bytes : c ≡ b = ground arith in rw (← same, ← bytes) h.0
    | inr t ↦ All-lookup k m b h.1 (ground arith)
  ]

-- The rule for the draining loop: what every round keeps holds at the end, and there no segment is
-- left that starts at the next sequence number.
pub drain_ooo_inv :
    (I : Bytes → ℕ → Segments → Type 0)
    → ((rxbuf : Bytes) (adv : ℕ) (ooo : Segments) (b : Bytes)
        → lookup adv ooo ≡ some b
        → I rxbuf adv ooo
        → I (rxbuf ++ b) (wrapping_add adv (length b)) (without adv ooo))
    → (fuel : ℕ) (rxbuf : Bytes) (adv : ℕ) (ooo : Segments) → length ooo < fuel
    → I rxbuf adv ooo
    → let r = drain_ooo fuel rxbuf adv ooo in I r.0 r.1 r.2 × (lookup r.1 r.2 ≡ none)
unfolding drain_ooo
drain_ooo_inv I keep zero rxbuf adv ooo h i = absurd (omega arith)
drain_ooo_inv I keep (suc fuel) rxbuf adv ooo h i = elim (Option-cases (lookup adv ooo)) [
  | inl e ↦ rw (e, drain_ooo) (i, e)
  | inr (b, e) ↦
      rw (e, drain_ooo)
        (drain_ooo_inv I keep fuel (rxbuf ++ b) (wrapping_add adv (length b)) (without adv ooo)
          (omega (arith, length-without-lt adv ooo b e)) (keep rxbuf adv ooo b e i))
]
