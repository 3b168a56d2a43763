-- ===== src/Tui/View/Window.antt =====
-- The window that `view_window` picks is in bounds, and filled with whole items.
use tapgres.Prelude.{
  ℕ, zero, suc, ◌+◌, ◌≤◌, ◌<◌, ◌≡◌, refl, ap, ◌⊎◌, inl, inr, false, not, ◌&&◌, arith, ltb, leb,
  ◌==◌,
}
use tapgres.Outcome.{value, panic, ◌>>=◌, holds}
use tapgres.Outcome.Unless.{Unless, sound, broken, Unless-elim, Unless-weaken}
use tapgres.Tui.{Run}
use tapgres.Tui.View.{backward, forward}

-- The rows of so many items from a position on.
unfoldable pub rows_from : (ℕ → ℕ) → ℕ → ℕ → ℕ
rows_from h pos zero = 0
rows_from h pos (suc k) = h pos + rows_from h (suc pos) k

rows_from-suc : (h : ℕ → ℕ) (pos k : ℕ) → rows_from h pos (suc k) ≡ rows_from h pos k + h (pos + k)
unfolding rows_from
rows_from-suc h pos zero = let e : pos + 0 ≡ pos = omega arith in rw e (omega arith)
rows_from-suc h pos (suc k) =
    let e : pos + suc k ≡ suc pos + k = omega arith in
    rw e (omega (arith, rows_from-suc h (suc pos) k))

-- From `s`, `k` of `n` items are a window: an item if there is one, and whole items only, unless a
-- single one is higher than the view.
pub record Fits (h : ℕ → ℕ) (log_h s k n : ℕ) : Type 0 where
  pub inside : s + k ≤ n
  pub nonempty : s < n → 0 < k
  pub rows : (rows_from h s k ≤ log_h) ⊎ (k ≡ 1)

module _ (Bad : Type 0) (height : ℕ → Run ℕ) (h : ℕ → ℕ) where
  -- An item is measured, or the measuring panics.
  abbrev pub Reads : ℕ → Type 0
  Reads i = ((height i ≡ value (h i)) × (0 < h i)) ⊎ ((height i ≡ panic) × Bad)

  measured :
      {P : ℕ → Type 0} (i : ℕ) (f : ℕ → Run ℕ)
      → Reads i
      → (0 < h i → Unless Bad P (f (h i)))
      → Unless Bad P (height i >>= f)
  measured i f (inl (e, positive)) k = rw (e, ◌>>=◌) (k positive)
  measured i f (inr (e, bad)) k = rw (e, ◌>>=◌) (broken bad)

module _ (Bad : Type 0) (height : ℕ → Run ℕ) (h : ℕ → ℕ) (log_h : ℕ) where
  abbrev pub Filled : ℕ → ℕ → ℕ → Type 0
  Filled rows s k = (rows_from h s k + rows ≤ log_h) ⊎ (((rows ≡ 0) × (k ≡ 1)) ⊎ (k ≡ 0))

  -- One more item makes the view full, or goes beyond it alone.
  one_more : (rows s : ℕ) → (not (rows == 0) && ltb log_h (rows + h s)) ≡ false → Filled rows s 1
  unfolding rows_from
  one_more zero s e = inr (inl (refl, refl))
  one_more (suc rows) s e = inl (ground (arith, e))

  -- With `rows` filled by the items from `start` on.
  pub record FitsBack (start rows : ℕ) (s : ℕ) : Type 0 where
    pub count : ℕ
    pub reaches : s + count ≡ start
    pub some_item : rows ≡ 0 → 0 < start → 0 < count
    pub filled : Filled rows s count

  further_back :
      (i rows : ℕ) {s : ℕ}
      → 0 < h i
      → Filled rows i 1
      → rows + h i < log_h
      → FitsBack i (rows + h i) s
      → FitsBack (suc i) rows s
  unfolding rows_from
  further_back i rows {s} positive one less r = record {
    count = suc r.count;
    reaches = omega (arith, r.reaches);
    some_item = λ e f. omega arith;
    filled = elim r.filled [
      | inl f ↦ inl (omega (arith, f, rows_from-suc h s r.count, ap h r.reaches))
      | inr (inl (f, g)) ↦ absurd (omega (arith, f, positive))
      | inr (inr f) ↦ inl (
          omega
            (arith, less, rows_from-suc h s r.count, ap h r.reaches, ap (λ k. rows_from h s k) f))
    ];
  }

  pub backward-FitsBack :
      (start rows : ℕ)
      → ((i : ℕ) → i < start → Reads Bad height h i)
      → Unless Bad (FitsBack start rows) (backward height log_h start rows)
  unfolding backward
  backward-FitsBack zero rows reads =
      sound (
        holds (record { count = 0; reaches = refl; some_item = λ e f. f; filled = inr (inr refl) }))
  backward-FitsBack (suc i) rows reads =
      measured Bad height h i _ (reads i (omega arith)) (λ positive.
        Unless-elim (not (rows == 0) && ltb log_h (rows + h i)) _ _
          (λ over. sound (
            holds (record {
              count = 0;
              reaches = omega arith;
              some_item = λ e f. absurd (ground (arith, e, over));
              filled = inr (inr refl);
            })))
          (λ fits.
            Unless-elim (leb log_h (rows + h i)) _ _
              (λ full. sound (
                holds (record {
                  count = 1;
                  reaches = omega arith;
                  some_item = λ e f. omega arith;
                  filled = one_more rows i fits;
                })))
              (λ more.
                Unless-weaken (λ b. b)
                  (λ s r.
                    further_back i rows positive (one_more rows i fits) (ground (arith, more)) r)
                  (backward-FitsBack i (rows + h i) (λ j l. reads j (omega (arith, l)))))))

  pub record FitsOn (left pos rows : ℕ) (e : ℕ) : Type 0 where
    pub count : ℕ
    pub reaches : e ≡ pos + count
    pub inside : count ≤ left
    pub some_item : rows ≡ 0 → 0 < left → 0 < count
    pub filled : Filled rows pos count

  further_on :
      (left pos rows : ℕ) {e : ℕ}
      → 0 < h pos
      → Filled rows pos 1
      → rows + h pos < log_h
      → FitsOn left (suc pos) (rows + h pos) e
      → FitsOn (suc left) pos rows e
  unfolding rows_from
  further_on left pos rows {e} positive one less r = record {
    count = suc r.count;
    reaches = omega (arith, r.reaches);
    inside = omega (arith, r.inside);
    some_item = λ e f. omega arith;
    filled = elim r.filled [
      | inl f ↦ inl (omega (arith, f))
      | inr (inl (f, g)) ↦ absurd (omega (arith, f, positive))
      | inr (inr f) ↦ inl (omega (arith, less, ap (λ k. rows_from h (suc pos) k) f))
    ];
  }

  pub forward-FitsOn :
      (left pos rows : ℕ)
      → ((i : ℕ) → i < pos + left → Reads Bad height h i)
      → Unless Bad (FitsOn left pos rows) (forward height log_h left pos rows)
  unfolding forward
  forward-FitsOn zero pos rows reads = sound (
      holds (record {
        count = 0;
        reaches = omega arith;
        inside = omega arith;
        some_item = λ e f. f;
        filled = inr (inr refl);
      }))
  forward-FitsOn (suc left) pos rows reads =
      measured Bad height h pos _ (reads pos (omega arith)) (λ positive.
        Unless-elim (not (rows == 0) && ltb log_h (rows + h pos)) _ _
          (λ over. sound (
            holds (record {
              count = 0;
              reaches = omega arith;
              inside = omega arith;
              some_item = λ e f. absurd (ground (arith, e, over));
              filled = inr (inr refl);
            })))
          (λ fits.
            Unless-elim (leb log_h (rows + h pos)) _ _
              (λ full. sound (
                holds (record {
                  count = 1;
                  reaches = omega arith;
                  inside = omega arith;
                  some_item = λ e f. omega arith;
                  filled = one_more rows pos fits;
                })))
              (λ more.
                Unless-weaken (λ b. b)
                  (λ e r.
                    further_on left pos rows positive (one_more rows pos fits)
                      (ground (arith, more)) r)
                  (forward-FitsOn left (suc pos) (rows + h pos)
                    (λ i l. reads i (omega (arith, l)))))))
