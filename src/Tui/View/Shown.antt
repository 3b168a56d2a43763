-- ===== src/Tui/View/Shown.antt =====
-- The window is within bounds, and shows nothing but events that match.
use tapgres.Prelude.{
  All-get, All-IsInfix, get_elem?-length, ℕ, suc, ◌+◌, ◌-◌, ◌≤◌, ◌<◌, ◌≡◌, refl, sym, ap, subst,
  ◌∙◌, inl, inr, ◌⊎◌, max, ◌%◌, ◌^◌, true, ◌||◌, Option, none, some, List, [], ◌∷◌, ◌++◌, arith,
  ◌==◌, if◌then◌else◌, length, get_elem?, append_assoc, length-append, All, Bool, false, Bool-cases,
}
use tapgres.Outcome.{
  value, error, panic, out_of_fuel, ◌>>=◌, slice, index-in, get_elem?-some, holds, Ensures-slice,
}
use tapgres.Outcome.Unless.{Unless, sound, Unless-if, Unless-bind, Unless-weaken}
use tapgres.Event.{Output, EventDetail, data_row, row_description}
use tapgres.Filter.{DisplayFilter}
use tapgres.Decode.{matches_filter, detail_of, rendered}
use tapgres.Tui.{Ui, App, Run, Regex, matching}
use tapgres.Tui.Consistent.{Consistent}
use tapgres.Tui.Line.{Span}
use tapgres.Tui.Line.Broken.{CharBehindTag}
use tapgres.Tui.Rich.{View, event_lines}
use tapgres.Tui.Rich.Drawable.{Undrawable, Shows, nothing, event, event_lines-Unless}
use tapgres.Tui.View.{
  LineCount, event_height, detail_height, item_height, view_window, view_of, lines_at, window_of,
  shown_lines,
}
use tapgres.Tui.View.Window.{
  Filled, Fits, FitsBack, FitsOn, Reads, backward-FitsBack, forward-FitsOn, rows_from,
}

detail_height-pos : (o : Option EventDetail) → 0 < detail_height o
detail_height-pos none = omega arith
detail_height-pos (some (data_row columns)) = omega arith
detail_height-pos (some (row_description fields)) = omega arith

-- An event has a row or more, or its line is not drawn.
abbrev Measured : Output → Run ℕ → Type 0
Measured evt r = ((h : ℕ) × (r ≡ value h) × (0 < h)) ⊎ ((r ≡ panic) × CharBehindTag (rendered evt))

event_height-Measured :
    (line_count : LineCount) (evt : Output) (width : ℕ) (view : View)
    → Measured evt (event_height line_count evt width view)
unfolding event_height
event_height-Measured line_count evt width view =
    either view.wrap _ _ (wrapped (event_lines evt view) (event_lines-Unless evt view)) (
      either view.rich _ _
        (inl (detail_height (detail_of evt), refl, detail_height-pos (detail_of evt)))
        (inl (1, refl, omega arith)))
  where
    either :
        (b : Bool) (x y : Run ℕ)
        → Measured evt x
        → Measured evt y
        → Measured evt (if b then x else y)
    either true x y hx hy = hx
    either false x y hx hy = hy

    wrapped :
        (r : Run (List (List Span)))
        → Unless (CharBehindTag (rendered evt)) (λ l. Unit {0}) r
        → Measured evt (r >>= λ lines. value (max (line_count lines (width % 2 ^ 16)) 1))
    wrapped (value lines) u = inl (max (line_count lines (width % 2 ^ 16)) 1, refl, omega arith)
    wrapped (error e) u = elim e [ ]
    wrapped panic (Unless.broken b) = inr (refl, b)
    wrapped panic (sound h) = elim h [ ]
    wrapped out_of_fuel (sound h) = elim h [ ]

none_yet : (h : ℕ → ℕ) (log_h : ℕ) → rows_from h 0 0 ≤ log_h
unfolding rows_from
none_yet h log_h = omega arith

module _ (Bad : Type 0) (height : ℕ → Run ℕ) (h : ℕ → ℕ) (log_h n : ℕ) where
  rows-Fits : (s k : ℕ) → Filled Bad height h log_h 0 s k → (rows_from h s k ≤ log_h) ⊎ (k ≡ 1)
  unfolding rows_from
  rows-Fits s k (inl f) = inl (omega (arith, f))
  rows-Fits s k (inr (inl (f, g))) = inr g
  rows-Fits s k (inr (inr f)) = inl (rw f (omega arith))

  back-Fits : (s : ℕ) (b : FitsBack Bad height h log_h n 0 s) → Fits h log_h s b.count n
  back-Fits s b = record {
    inside = omega (arith, b.reaches);
    nonempty = λ l. b.some_item refl (omega (arith, l));
    rows = rows-Fits s b.count b.filled;
  }

  on-Fits :
      (s e : ℕ) → s ≤ n → (b : FitsOn Bad height h log_h (n - s) s 0 e) → Fits h log_h s b.count n
  on-Fits s e le b = record {
    inside = omega (arith, b.inside, le);
    nonempty = λ l. b.some_item refl (omega (arith, l));
    rows = rows-Fits s b.count b.filled;
  }

module _ (ui : Ui) where
  -- The index is that of an event that matches.
  pub record Marks (f : DisplayFilter (Regex ui)) (events : List Output) (i : ℕ) : Type 0 where
    pub output : Output
    pub stands : get_elem? events i ≡ some output
    pub matched : matches_filter ui.engine f output ≡ true

  undrawable :
      {f : DisplayFilter (Regex ui)} {events : List Output} {i : ℕ} (m : Marks f events i)
      → CharBehindTag (rendered m.output)
      → Undrawable ui f events
  undrawable {i = i} m b = record {
    output = m.output;
    position = i;
    stands = m.stands;
    matched = m.matched;
    behind_tag = b;
  }

  matching-Marks :
      (f : DisplayFilter (Regex ui)) (before after : List Output) (start : ℕ)
      → length before ≡ start
      → All (Marks f (before ++ after)) (matching ui f start after)
  unfolding matching
  matching-Marks f before [] start e = tt
  matching-Marks f before (x ∷ after) start e =
      let joined : (before ++ x ∷ []) ++ after ≡ before ++ x ∷ after =
        append_assoc before (x ∷ []) after in
      let rest : All (Marks f (before ++ x ∷ after)) (matching ui f (suc start) after) =
        subst (λ l. All (Marks f l) (matching ui f (suc start) after)) joined
          (matching-Marks f (before ++ x ∷ []) after (suc start)
            (omega (arith, length-append before (x ∷ []), e))) in
      elim (Bool-cases (matches_filter ui.engine f x)) [
        | inl m ↦ rw m (
          record { output = x; stands = rw (← e) (get_elem?-length before after x); matched = m },
          rest,
        )
        | inr m ↦ rw m rest
      ]

  pub visible-Marks :
      (app : App (Regex ui)) → Consistent ui app → All (Marks app.filter app.events) app.visible
  visible-Marks app c = rw c.listed (matching-Marks app.filter [] app.events 0 refl)

  abbrev Broken : App (Regex ui) → Type 0
  Broken app = Undrawable ui app.filter app.events

  -- The lines are those of events that match.
  abbrev pub ShowsMatching : DisplayFilter (Regex ui) → View → List (List Span) → Type 0
  ShowsMatching f view lines =
      (shown : List Output) × All (λ o. matches_filter ui.engine f o ≡ true) shown
      × Shows view shown lines

  lines_at-ShowsMatching :
      (f : DisplayFilter (Regex ui)) (view : View) (events : List Output) (indices : List ℕ)
      → All (Marks f events) indices
      → Unless (Undrawable ui f events) (ShowsMatching f view) (lines_at view events indices)
  unfolding lines_at
  lines_at-ShowsMatching f view events [] h = sound (holds ([], tt, nothing))
  lines_at-ShowsMatching f view events (i ∷ indices) h =
      let m = h.0 in
      rw (index-in {E = ⊥} events i m.output m.stands) (
        Unless-bind _ _
          (Unless-weaken (λ b. undrawable m b) (λ l u. u) (event_lines-Unless m.output view))
          λ lines e _.
            Unless-bind _ _ (lines_at-ShowsMatching f view events indices h.1)
              λ rest _ (shown, matched, shows).
                sound (holds (m.output ∷ shown, (m.matched, matched), event e shows)))

  abbrev rows_of : Run ℕ → ℕ
  rows_of (value h) = h
  rows_of (error e) = 0
  rows_of panic = 0
  rows_of out_of_fuel = 0

  -- The height of an item of `visible`, by its position.
  abbrev pub rows_at : LineCount → ℕ → View → App (Regex ui) → ℕ → ℕ
  rows_at line_count width view app i =
      rows_of (item_height line_count app.events app.visible width view i)

  item_height-Reads :
      (line_count : LineCount) (width : ℕ) (view : View) (app : App (Regex ui))
      → Consistent ui app
      → (i : ℕ) → i < length app.visible
      → let height = item_height line_count app.events app.visible width view in
        Reads (Broken app) height (rows_at line_count width view app) i
  unfolding item_height
  item_height-Reads line_count width view app c i h =
      let (event_index, e) = get_elem?-some app.visible i h in
      let m =
        All-get (Marks app.filter app.events) app.visible i event_index (visible-Marks app c) e in
      let height = item_height line_count app.events app.visible width view in
      let same : height i ≡ event_height line_count m.output width view =
        rw (index-in {E = ⊥} app.visible i event_index e)
          (rw (index-in {E = ⊥} app.events event_index m.output m.stands) refl) in
      elim (event_height-Measured line_count m.output width view) [
        | inl (rows, f, positive) ↦
            let known : rows_of (height i) ≡ rows = ap rows_of (same ∙ f) in
            inl (same ∙ f ∙ ap (λ n. value n) (sym known), subst (λ n. 0 < n) (sym known) positive)
        | inr (f, b) ↦ inr (same ∙ f, undrawable m b)
      ]

  pub view_window-Fits :
      (line_count : LineCount) (log_h width : ℕ) (view : View) (app : App (Regex ui))
      → Consistent ui app
      → app.scroll ≤ length app.visible - 1
      → Unless
          (Undrawable ui app.filter app.events)
          (λ w.
            (k : ℕ) × (w.1 ≡ w.0 + k)
            × Fits (rows_at line_count width view app) log_h w.0 k (length app.visible))
          (view_window line_count app.events app.visible app.scroll app.follow log_h width view)
  unfolding view_window
  view_window-Fits line_count log_h width view app c h =
      let n = length app.visible in
      let height = item_height line_count app.events app.visible width view in
      let rows = rows_at line_count width view app in
      Unless-if (n == 0) _ _
        (λ e. sound (
          holds (
            0,
            refl,
            record {
              inside = omega arith;
              nonempty = λ l. ground (arith, e, l);
              rows = inl (none_yet rows log_h);
            },
          )))
        (λ e.
          Unless-if app.follow _ _
            (λ _.
              Unless-bind _ _
                (backward-FitsBack (Broken app) height rows log_h n 0
                  (λ i l. item_height-Reads line_count width view app c i l))
                λ s _ b.
                  sound (
                    holds (b.count, sym b.reaches, back-Fits (Broken app) height rows log_h n s b)))
            (λ _.
              Unless-bind _ _
                (forward-FitsOn (Broken app) height rows log_h (n - app.scroll) app.scroll 0 (λ i l.
                  item_height-Reads line_count width view app c i (ground (arith, l, e, h))))
                λ end_ _ b. sound (
                  holds (
                    b.count,
                    b.reaches,
                    on-Fits (Broken app) height rows log_h n app.scroll end_ (omega (arith, h)) b,
                  ))))

  abbrev Inside : ℕ → ℕ × ℕ → Type 0
  Inside n w = (w.0 ≤ w.1) × (w.1 ≤ n)

  window_of-Inside :
      (line_count : LineCount) (log_h width : ℕ) (app : App (Regex ui))
      → Consistent ui app
      → app.scroll
        ≤ (if app.wrap || app.rich then length app.visible - 1 else length app.visible - log_h)
      → Unless (Broken app) (Inside (length app.visible)) (window_of ui line_count log_h width app)
  unfolding window_of
  window_of-Inside line_count log_h width app c h =
      Unless-if (app.wrap || app.rich) _ _
        (λ e.
          Unless-weaken (λ b. b)
            (λ w (k, reaches, fits). (omega (arith, reaches), omega (arith, reaches, fits.inside)))
            (view_window-Fits line_count log_h width (view_of ui app) app c (ground (arith, e, h))))
        (λ e. sound (holds (ground (arith, e, h), omega arith)))

  -- With a scroll position as the loop clamps it, drawing reads neither `visible` nor the events out of bounds, and
  -- the lines are those of events that match the filter in force, unless the line of one cannot be drawn.
  pub shown_lines-ShowsMatching :
      (line_count : LineCount) (log_h width : ℕ) (app : App (Regex ui))
      → Consistent ui app
      → app.scroll
        ≤ (if app.wrap || app.rich then length app.visible - 1 else length app.visible - log_h)
      → Unless
          (Undrawable ui app.filter app.events)
          (ShowsMatching app.filter (view_of ui app))
          (shown_lines ui line_count log_h width app)
  unfolding shown_lines
  shown_lines-ShowsMatching line_count log_h width app c h =
      Unless-bind _ _ (window_of-Inside line_count log_h width app c h) λ (s, e) _ (le, inside).
        Unless-bind (slice app.visible s e) _
          (sound (
            Ensures-slice {P = All (Marks app.filter app.events)} app.visible s e le inside
              λ indices part _.
                All-IsInfix (Marks app.filter app.events) part (visible-Marks app c)))
          λ indices _ marks.
            lines_at-ShowsMatching app.filter (view_of ui app) app.events indices marks
