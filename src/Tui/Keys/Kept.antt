-- ===== src/Tui/Keys/Kept.antt =====
-- Every key keeps the invariant.
use tapgres.Prelude.{not, ℕ, refl, Bool, true, false, Option, none, some, [], ◌||◌, ◌==◌, arith}
use tapgres.Outcome.{Ensures, holds, Ensures-bind, Ensures-either}
use tapgres.Event.{Text}
use tapgres.Tui.{Ui, App, Regex, is_empty, matching}
use tapgres.Tui.Consistent.{
  Consistent, update_filter-Consistent, clear_filter-Consistent, execute_command-Consistent,
}
use tapgres.Tui.Keys.{
  KeyCode, esc, enter, backspace, down, up, page_down, page_up, end_key, home, char, KeyEvent, stay,
  begin_command, handle_command_key, handle_splash_key, handle_filter_key, handle_char,
  handle_view_key, handle_key,
}

module _ (ui : Ui) where
  abbrev Kept : App (Regex ui) × Bool → Type 0
  Kept r = Consistent ui r.0

  -- The edits that leave alone what the invariant reads.
  set-Kept :
      (app : App (Regex ui)) (follow wrap rich filter_editing : Bool) (scroll : ℕ)
      → Consistent ui app
      → Ensures Kept (
          stay ui (record app {
            follow = follow;
            wrap = wrap;
            rich = rich;
            filter_editing = filter_editing;
            scroll = scroll;
          }))
  set-Kept app follow wrap rich filter_editing scroll c =
      holds (record { listed = c.listed; bounded = c.bounded; in_force = c.in_force })

  begin-Kept :
      (app : App (Regex ui)) → Consistent ui app → Ensures Kept (stay ui (begin_command ui app))
  begin-Kept app c =
      holds (record { listed = c.listed; bounded = c.bounded; in_force = c.in_force })

  emptied-Kept :
      (app : App (Regex ui))
      → Consistent ui app
      → Ensures Kept (stay ui (record app { events = []; visible = [] }))
  unfolding matching
  emptied-Kept app c =
      holds (record { listed = refl; bounded = omega arith; in_force = c.in_force })

  handle_command_key-Kept :
      (ctrl : Bool) (code : KeyCode) (app : App (Regex ui))
      → Consistent ui app
      → Ensures Kept (handle_command_key ui ctrl code app)
  unfolding handle_command_key
  handle_command_key-Kept ctrl esc app c =
      holds (record { listed = c.listed; bounded = c.bounded; in_force = c.in_force })
  handle_command_key-Kept ctrl enter app c =
      Ensures-bind _ _ (execute_command-Consistent ui app c) λ done k. holds k
  handle_command_key-Kept ctrl backspace app c =
      holds (record { listed = c.listed; bounded = c.bounded; in_force = c.in_force })
  handle_command_key-Kept false (char x) app c =
      holds (record { listed = c.listed; bounded = c.bounded; in_force = c.in_force })
  handle_command_key-Kept true (char x) app c = holds c
  handle_command_key-Kept ctrl _ app c = holds c

  handle_splash_key-Kept :
      (code : KeyCode) (app : App (Regex ui))
      → Consistent ui app
      → Ensures Kept (handle_splash_key ui code app)
  unfolding handle_splash_key
  handle_splash_key-Kept code app c =
      Ensures-either _ _ _ (holds c) (Ensures-either _ _ _ (begin-Kept app c) (holds c))

  handle_filter_key-Kept :
      (ctrl : Bool) (code : KeyCode) (app : App (Regex ui))
      → Consistent ui app
      → Ensures Kept (handle_filter_key ui ctrl code app)
  unfolding handle_filter_key
  handle_filter_key-Kept ctrl esc app c =
      let d = clear_filter-Consistent ui app c in
      holds (record { listed = d.listed; bounded = d.bounded; in_force = d.in_force })
  handle_filter_key-Kept ctrl enter app c = go app.filter_error
    where
      go :
          (o : Option Text)
          → Ensures {E = ⊥} Kept (elim o [
            | none ↦ stay ui (record app { filter_editing = false })
            | some e ↦ stay ui app
          ])
      go none = holds (record { listed = c.listed; bounded = c.bounded; in_force = c.in_force })
      go (some e) = holds c
  handle_filter_key-Kept ctrl backspace app c =
      Ensures-bind _ _ (update_filter-Consistent ui _ c.listed c.bounded) λ done k. holds k
  handle_filter_key-Kept false (char x) app c =
      Ensures-bind _ _ (update_filter-Consistent ui _ c.listed c.bounded) λ done k. holds k
  handle_filter_key-Kept true (char x) app c = holds c
  handle_filter_key-Kept ctrl _ app c = holds c

  handle_char-Kept :
      (x : ℕ) (app : App (Regex ui)) → Consistent ui app → Ensures Kept (handle_char ui x app)
  unfolding handle_char
  handle_char-Kept x app c = Ensures-either (x == b'q') _ _ (holds c) (
      Ensures-either (x == b'j') _ _ (set-Kept app false app.wrap app.rich app.filter_editing _ c) (
        Ensures-either (x == b'k') _ _ (set-Kept app false app.wrap app.rich app.filter_editing _ c)
          (Ensures-either (x == b'G') _ _
            (set-Kept app true app.wrap app.rich app.filter_editing app.scroll c)
            (Ensures-either (x == b'g') _ _
              (set-Kept app false app.wrap app.rich app.filter_editing 0 c)
              (Ensures-either (x == b'f') _ _
                (set-Kept app (not app.follow) app.wrap app.rich app.filter_editing app.scroll c)
                (Ensures-either (x == b'w') _ _
                  (set-Kept app app.follow (not app.wrap) app.rich app.filter_editing app.scroll c)
                  (Ensures-either (x == b'r') _ _
                    (set-Kept app app.follow app.wrap (not app.rich) app.filter_editing app.scroll
                      c)
                    (Ensures-either (x == b'c') _ _ (emptied-Kept app c) (
                      Ensures-either (x == b'y') _ _
                        (set-Kept app app.follow app.wrap app.rich true app.scroll c)
                        (Ensures-either (x == b'/' || x == b':') _ _ (begin-Kept app c)
                          (holds c)))))))))))

  handle_view_key-Kept :
      (log_h : ℕ) (code : KeyCode) (app : App (Regex ui))
      → Consistent ui app
      → Ensures Kept (handle_view_key ui log_h code app)
  unfolding handle_view_key
  handle_view_key-Kept log_h (char x) app c = handle_char-Kept x app c
  handle_view_key-Kept log_h down app c =
      set-Kept app false app.wrap app.rich app.filter_editing _ c
  handle_view_key-Kept log_h up app c = set-Kept app false app.wrap app.rich app.filter_editing _ c
  handle_view_key-Kept log_h page_down app c =
      set-Kept app false app.wrap app.rich app.filter_editing _ c
  handle_view_key-Kept log_h page_up app c =
      set-Kept app false app.wrap app.rich app.filter_editing _ c
  handle_view_key-Kept log_h end_key app c =
      set-Kept app true app.wrap app.rich app.filter_editing app.scroll c
  handle_view_key-Kept log_h home app c =
      set-Kept app false app.wrap app.rich app.filter_editing 0 c
  handle_view_key-Kept log_h esc app c =
      Ensures-either (is_empty app.filter) _ _ (holds c) (holds (clear_filter-Consistent ui app c))
  handle_view_key-Kept log_h _ app c = holds c

  -- Any key in any mode is handled without a panic, and keeps the state consistent: the events listed are those
  -- that match the filter in force, in order, the history is bounded, and the filter in force is
  -- the one that the filter's text parses to, unless an error is shown.
  pub handle_key-Consistent :
      (log_h : ℕ) (key : KeyEvent) (app : App (Regex ui))
      → Consistent ui app
      → Ensures (λ r. Consistent ui r.0) (handle_key ui log_h key app)
  unfolding handle_key
  handle_key-Consistent log_h key app c = Ensures-either _ _ _ (holds c) (
      Ensures-either _ _ _ (handle_command_key-Kept key.ctrl key.code app c) (
        Ensures-either _ _ _ (handle_splash_key-Kept key.code app c) (
          Ensures-either _ _ _ (handle_filter_key-Kept key.ctrl key.code app c)
            (handle_view_key-Kept log_h key.code app c))))
