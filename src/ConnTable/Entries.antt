-- ===== src/ConnTable/Entries.antt =====
-- Sums over the entries of the table, and what inserting and removing make of them.
use tapgres.Prelude.{ℕ, ◌+◌, ◌≡◌, ◌≤◌, arith, Option, none, some, [], ◌∷◌, if◌then◌else◌, not, ◌==◌}
use tapgres.State.Counts.{one_if}
use tapgres.Connection.{Connection}
use tapgres.ConnTable.{ConnKey, Entries, get, insert, remove}

unfoldable pub total : (Connection → ℕ) → Entries → ℕ
total w [] = 0
total w ((j, c) ∷ m) = w c + total w m

abbrev pub weight : (Connection → ℕ) → Option Connection → ℕ
weight w none = 0
weight w (some c) = w c

module _ (w : Connection → ℕ) (k : ConnKey) where
  pub total-insert :
      (c : Connection) (m : Entries) → total w (insert k c m) + weight w (get k m) ≡ w c + total w m
  unfolding total insert get
  total-insert c [] = omega arith
  total-insert c ((j, d) ∷ m) = ground (arith, total-insert c m)

  pub total-remove : (m : Entries) → total w (remove k m) + weight w (get k m) ≡ total w m
  unfolding total remove get
  total-remove [] = omega arith
  total-remove ((j, d) ∷ m) = ground (arith, total-remove m)

-- The entries of a record, the entries that are not closed, and both.
abbrev pub of_record : ℕ → Connection → ℕ
of_record k c = one_if (c.stats == k)

abbrev pub unclosed : Connection → ℕ
unclosed c = one_if (not c.metrics_closed)

abbrev pub unclosed_of : ℕ → Connection → ℕ
unclosed_of k c = if c.stats == k then unclosed c else 0

pub unclosed_of-le-of_record :
    (k : ℕ) (m : Entries) → total (unclosed_of k) m ≤ total (of_record k) m
unfolding total
unclosed_of-le-of_record k [] = omega arith
unclosed_of-le-of_record k ((j, c) ∷ m) = ground (arith, unclosed_of-le-of_record k m)

pub get-insert :
    (k : ConnKey) (c d : Connection) (m : Entries)
    → get k m ≡ some d
    → get k (insert k c m) ≡ some c
unfolding get insert
get-insert k c d [] e = cc
get-insert k c d ((j, b) ∷ m) e = ground (arith, get-insert k c d m)
