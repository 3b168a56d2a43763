-- ===== src/State/Counts.antt =====
-- Counting ids in the registry and records in the store.
use tapgres.Prelude.{
  ℕ, ◌+◌, ◌≤◌, ◌<◌, ◌≡◌, refl, Bool, true, false, some, List, [], ◌∷◌, ◌++◌, arith, ◌==◌,
  if◌then◌else◌, length,
}
use tapgres.State.{ConnStats, ConnectionLifecycle, opened, closed, without, find, update}

abbrev pub one_if : Bool → ℕ
one_if b = if b then 1 else 0

unfoldable pub count : ℕ → List ℕ → ℕ
count k [] = 0
count k (j ∷ l) = one_if (j == k) + count k l

abbrev pub is_open : ConnectionLifecycle → Bool
is_open (opened _) = true
is_open (closed _ _) = false

-- Records with the id, open records with the id, and open records.
unfoldable pub id_count : ℕ → List ConnStats → ℕ
id_count k [] = 0
id_count k (c ∷ l) = one_if (c.id == k) + id_count k l

unfoldable pub open_count : ℕ → List ConnStats → ℕ
open_count k [] = 0
open_count k (c ∷ l) = (if c.id == k then one_if (is_open c.lifecycle) else 0) + open_count k l

unfoldable pub total_open : List ConnStats → ℕ
total_open [] = 0
total_open (c ∷ l) = one_if (is_open c.lifecycle) + total_open l

pub count-append : (k : ℕ) (l r : List ℕ) → count k (l ++ r) ≡ count k l + count k r
unfolding count
count-append k [] r = omega arith
count-append k (j ∷ l) r = omega (arith, count-append k l r)

pub count-without :
    (k j : ℕ) (l : List ℕ) → count j (without k l) ≡ (if k == j then 0 else count j l)
unfolding count without
count-without k j [] = ground arith
count-without k j (i ∷ l) = ground (arith, count-without k j l)

pub length-without : (k : ℕ) (l : List ℕ) → length (without k l) + count k l ≡ length l
unfolding count without
length-without k [] = omega arith
length-without k (i ∷ l) = ground (arith, length-without k l)

pub open_count-le-id_count : (k : ℕ) (l : List ConnStats) → open_count k l ≤ id_count k l
unfolding open_count id_count
open_count-le-id_count k [] = omega arith
open_count-le-id_count k (c ∷ l) = ground (arith, open_count-le-id_count k l)

pub open_count-le-total_open : (k : ℕ) (l : List ConnStats) → open_count k l ≤ total_open l
unfolding open_count total_open
open_count-le-total_open k [] = omega arith
open_count-le-total_open k (c ∷ l) = ground (arith, open_count-le-total_open k l)

-- A write that leaves the id and the lifecycle alone changes no count.
pub record Keeps (f : ConnStats → ConnStats) : Type 0 where
  pub id : (c : ConnStats) → (f c).id ≡ c.id
  pub lifecycle : (c : ConnStats) → (f c).lifecycle ≡ c.lifecycle

module _ (f : ConnStats → ConnStats) (same : (c : ConnStats) → (f c).id ≡ c.id) where
  pub id_count-update : (k j : ℕ) (l : List ConnStats) → id_count j (update k f l) ≡ id_count j l
  unfolding id_count update
  id_count-update k j [] = refl
  id_count-update k j (c ∷ l) = ground (arith, same c, id_count-update k j l)

module _ (f : ConnStats → ConnStats) (same : Keeps f) where
  pub open_count-update :
      (k j : ℕ) (l : List ConnStats) → open_count j (update k f l) ≡ open_count j l
  unfolding open_count update
  open_count-update k j [] = refl
  open_count-update k j (c ∷ l) =
      ground (arith, same.id c, same.lifecycle c, open_count-update k j l)

  pub total_open-update : (k : ℕ) (l : List ConnStats) → total_open (update k f l) ≡ total_open l
  unfolding total_open update
  total_open-update k [] = refl
  total_open-update k (c ∷ l) = ground (arith, same.lifecycle c, total_open-update k l)

-- A write that closes.
abbrev pub close_with : ℕ → ℕ → ConnStats → ConnStats
close_with since now c = record c { lifecycle = closed since now }

module _ (since now : ℕ) where
  pub open_count-close :
      (k j : ℕ) (l : List ConnStats)
      → open_count j (update k (close_with since now) l) ≡ (if k == j then 0 else open_count j l)
  unfolding open_count update
  open_count-close k j [] = ground arith
  open_count-close k j (c ∷ l) = ground (arith, open_count-close k j l)

  pub total_open-close :
      (k : ℕ) (l : List ConnStats)
      → total_open (update k (close_with since now) l) + open_count k l ≡ total_open l
  unfolding total_open open_count update
  total_open-close k [] = omega arith
  total_open-close k (c ∷ l) = ground (arith, total_open-close k l)

-- What `find` returns, by the counts.
pub open_count-find :
    (k since : ℕ) (l : List ConnStats) (c : ConnStats)
    → find k l ≡ some c
    → c.lifecycle ≡ opened since
    → 0 < open_count k l
unfolding find open_count
open_count-find k since [] c e h = cc
open_count-find k since (d ∷ l) c e h = ground (arith, open_count-find k since l c)
