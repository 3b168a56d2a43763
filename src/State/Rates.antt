-- ===== src/State/Rates.antt =====
-- `sample_rates`: the history of rates is a window of the last samples.
use tapgres.Prelude.{
  ℕ, ap, ltb→lt, zero, sym, ◌∙◌, drop_all, Option-cases, suc, ◌-◌, ◌≤◌, ◌<◌, ◌≡◌, refl, List, [],
  ◌∷◌, ◌++◌, arith, ltb, ◌==◌, if◌then◌else◌, length, drop, length-append, length-drop, Bool-cases,
  inl, inr, ltb→le,
}
use tapgres.State.{
  Metrics, RateSample, in_bound, out_bound, with_limits, find, trim, sample_rates, totals,
  rate_between, open_connection, record_messages, set_encrypted, close_connection, ending, retire,
}
use tapgres.State.Reach.{Step, opens, records, encrypts, closes, samples, Reach, here, next}

trim-drop : (limit : ℕ) (l : List RateSample) → trim limit l ≡ drop (length l - limit) l
unfolding trim
trim-drop limit [] = sym (drop_all (0 - limit) [] (omega arith))
trim-drop limit (s ∷ l) = elim (Bool-cases (ltb limit (suc (length l)))) [
  | inl over ↦ rw over (trim-drop limit l ∙ ap (λ n. drop n (s ∷ l)) (one_more (ltb→lt _ _ over)))
  | inr fits ↦ rw fits (ap (λ n. drop n (s ∷ l)) (none_over (ltb→le _ _ fits)))
]
  where
    one_more : limit < suc (length l) → suc (length l - limit) ≡ suc (length l) - limit
    one_more h = omega arith

    none_over : suc (length l) ≤ limit → 0 ≡ suc (length l) - limit
    none_over h = omega arith

kept_window :
    (limit : ℕ) (l : List RateSample) (s : RateSample)
    → length l ≤ limit
    → (if limit == 0 then l else trim limit (l ++ s ∷ []))
      ≡ drop (suc (length l) - limit) (l ++ s ∷ [])
kept_window zero [] s h = refl
kept_window zero (x ∷ l) s h = absurd (omega arith)
kept_window (suc limit) l s h = ground (
  arith,
  trim-drop (suc limit) (l ++ s ∷ []) ∙ ap (λ n. drop (n - suc limit) (l ++ s ∷ [])) one_longer,
)
  where
    one_longer : length (l ++ s ∷ []) ≡ suc (length l)
    one_longer = omega (arith, length-append l (s ∷ []))

kept-length :
    (limit : ℕ) (l : List RateSample) (s : RateSample)
    → length l ≤ limit
    → length (if limit == 0 then l else trim limit (l ++ s ∷ [])) ≤ limit
kept-length limit l s h =
    rw (kept_window limit l s h)
      (omega (arith, length-append l (s ∷ []), length-drop (suc (length l) - limit) (l ++ s ∷ [])))

-- With a history within its limit, also a limit of 0, a sample is the totals' growth since the last
-- one and the history becomes the last `rate_history` of its samples and the new one.
pub sample_rates-window :
    (m : Metrics)
    → length m.rates.samples ≤ m.rate_history
    → let sampled = sample_rates m in
      (sampled.1 ≡ rate_between (totals m) m.rates.previous)
      × (sampled.0.rates.previous ≡ totals m)
      × (sampled.0.rates.samples
          ≡ drop
              (suc (length m.rates.samples) - m.rate_history)
              (m.rates.samples ++ sampled.1 ∷ []))
unfolding sample_rates
sample_rates-window m h = (refl, refl, kept_window m.rate_history m.rates.samples _ h)

-- Whatever the operations, the history stays within its limit.
Step-limit :
    {m n : Metrics}
    → Step m n
    → length m.rates.samples ≤ m.rate_history
    → length n.rates.samples ≤ n.rate_history
unfolding open_connection record_messages set_encrypted close_connection retire sample_rates
Step-limit (opens now a b encrypted m room) h = h
Step-limit (records id in_bound n bytes m known) h = h
Step-limit (records id out_bound n bytes m known) h = h
Step-limit (encrypts id encrypted m) h = h
Step-limit (closes now id m) h = elim (Option-cases (ending now (find id m.store))) [
  | inl e ↦ rw e h
  | inr (ended, e) ↦ rw e h
]
Step-limit (samples m) h =
    kept-length m.rate_history m.rates.samples (rate_between (totals m) m.rates.previous) h

-- From a fresh store with any limits, after any operations, the history holds at most
-- `rate_history` samples.
pub Reach-limit :
    (cap history : ℕ) {m : Metrics}
    → Reach (with_limits cap history) m
    → length m.rates.samples ≤ m.rate_history
Reach-limit cap history here = omega arith
Reach-limit cap history (next r st) = Step-limit st (Reach-limit cap history r)
