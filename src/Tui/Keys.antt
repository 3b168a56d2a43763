-- ===== src/Tui/Keys.antt =====
-- src/tui.rs `handle_key`.
pub mod Kept
use tapgres.Prelude.{
  ℕ, ◌-◌, Bool, true, false, not, ◌&&◌, ◌||◌, Option, none, some, List, [], ◌∷◌, ◌++◌, ◌==◌,
  if◌then◌else◌,
}
use tapgres.Outcome.{value, ◌>>=◌, ◌>>◌}
use tapgres.Event.{Text}
use tapgres.Tui.{
  App, Ui, Run, Regex, saturating_add, is_empty, update_filter, clear_filter, execute_command,
}

-- The key codes that the program tells apart.
pub data KeyCode : Type 0 where
  esc enter backspace down up page_down page_up end_key home other_key : KeyCode
  char : ℕ → KeyCode

pub record KeyEvent : Type 0 where
  pub code : KeyCode
  pub ctrl : Bool

-- `String::pop`
pub pop : Text → Text
pop [] = []
pop (c ∷ []) = []
pop (c ∷ d ∷ t) = c ∷ pop (d ∷ t)

abbrev pub is_char : ℕ → KeyCode → Bool
is_char c (char d) = d == c
is_char c _ = false

module _ (ui : Ui) where
  abbrev pub Reply : Type 0
  Reply = Run (App (Regex ui) × Bool)

  -- The handler goes on, and quits.
  abbrev pub stay : App (Regex ui) → Reply
  stay app = value (app, false)

  abbrev pub begin_command : App (Regex ui) → App (Regex ui)
  begin_command app = record app {
    command_editing = true;
    command_text = [];
    command_notice = none;
  }

  -- The block under `if app.command_editing`.
  pub handle_command_key : Bool → KeyCode → App (Regex ui) → Reply
  handle_command_key ctrl esc app = stay (record app { command_editing = false; command_text = [] })
  handle_command_key ctrl enter app = execute_command ui app >>= λ done. stay done
  handle_command_key ctrl backspace app = stay (record app { command_text = pop app.command_text })
  handle_command_key false (char c) app =
      stay (record app { command_text = app.command_text ++ c ∷ [] })
  handle_command_key ctrl _ app = stay app

  -- The block under `if app.show_splash`.
  pub handle_splash_key : KeyCode → App (Regex ui) → Reply
  handle_splash_key code app =
      if is_char b'q' code
      then value (app, true)
      else if is_char b'/' code || is_char b':' code
      then stay (begin_command app)
      else stay app

  -- The block under `if app.filter_editing`.
  pub handle_filter_key : Bool → KeyCode → App (Regex ui) → Reply
  handle_filter_key ctrl esc app = stay (record (clear_filter ui app) { filter_editing = false })
  handle_filter_key ctrl enter app = elim app.filter_error [
    | none ↦ stay (record app { filter_editing = false })
    | some e ↦ stay app
  ]
  handle_filter_key ctrl backspace app =
      update_filter ui (record app { filter_text = pop app.filter_text }) >>= λ done. stay done
  handle_filter_key false (char c) app =
      update_filter ui (record app { filter_text = app.filter_text ++ c ∷ [] }) >>= λ done.
      stay done
  handle_filter_key ctrl _ app = stay app

  abbrev pub scroll_down : ℕ → App (Regex ui) → App (Regex ui)
  scroll_down n app = record app { follow = false; scroll = saturating_add app.scroll n }

  abbrev pub scroll_up : ℕ → App (Regex ui) → App (Regex ui)
  scroll_up n app = record app { follow = false; scroll = app.scroll - n }

  abbrev pub go_top : App (Regex ui) → App (Regex ui)
  go_top app = record app { follow = false; scroll = 0 }

  -- The characters of the last `match`.
  pub handle_char : ℕ → App (Regex ui) → Reply
  handle_char c app =
      if c == b'q'
      then value (app, true)
      else if c == b'j'
      then stay (scroll_down 1 app)
      else if c == b'k'
      then stay (scroll_up 1 app)
      else if c == b'G'
      then stay (record app { follow = true })
      else if c == b'g'
      then stay (go_top app)
      else if c == b'f'
      then stay (record app { follow = not app.follow })
      else if c == b'w'
      then stay (record app { wrap = not app.wrap })
      else if c == b'r'
      then stay (record app { rich = not app.rich })
      else if c == b'c'
      then stay (record app { events = []; visible = [] })
      else if c == b'y'
      then stay (record app { filter_editing = true })
      else if c == b'/' || c == b':'
      then stay (begin_command app)
      else stay app

  pub handle_view_key : ℕ → KeyCode → App (Regex ui) → Reply
  handle_view_key log_h (char c) app = handle_char c app
  handle_view_key log_h down app = stay (scroll_down 1 app)
  handle_view_key log_h up app = stay (scroll_up 1 app)
  handle_view_key log_h page_down app = stay (scroll_down log_h app)
  handle_view_key log_h page_up app = stay (scroll_up log_h app)
  handle_view_key log_h end_key app = stay (record app { follow = true })
  handle_view_key log_h home app = stay (go_top app)
  handle_view_key log_h esc app =
      if is_empty app.filter then stay app else stay (clear_filter ui app)
  handle_view_key log_h _ app = stay app

  -- handle_key; true is to quit.
  pub handle_key : ℕ → KeyEvent → App (Regex ui) → Reply
  handle_key log_h key app =
      if is_char b'c' key.code && key.ctrl
      then value (app, true)
      else if app.command_editing
      then handle_command_key key.ctrl key.code app
      else if app.show_splash
      then handle_splash_key key.code app
      else if app.filter_editing
      then handle_filter_key key.ctrl key.code app
      else handle_view_key log_h key.code app
