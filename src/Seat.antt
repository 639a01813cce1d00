-- ===== src/Seat.antt =====
-- The seat: proxy/seat.c and proxy/seat.h, with the members of qwswl_state_t (proxy/lifecycle.h) that
-- it uses. A handler answers `none` where it reads through a NULL pointer or fails an assertion. The
-- events that it sends go to the window's client and carry the window's id; here a window is its
-- address, and `heap` gives the object there. xkbcommon is an argument.
pub mod Keys
pub mod Pointer
pub mod Keyboard
pub mod Devices
use qwswayland.Prelude.{ℕ, Bool, Option, List}
use qwswayland.Prelude.Int.{ℤ}
use qwswayland.Focus.{FocusEvent}
use Keys.{Keysym}

-- What the seat reads of a window.
pub record SeatWindow : Type 0 where
  pub x : ℤ
  pub y : ℤ
  pub xdg_toplevel : Bool

-- qwswl_pointer_state_t
pub record PointerState : Type 0 where
  pub win : Option ℕ
  pub gx : ℤ
  pub gy : ℤ
  pub button_state : ℕ
  pub button_serial : ℕ
  pub enter_serial : ℕ

pub data Modifier : Type 0 where
  shift ctrl alt logo num : Modifier

-- xkbcommon: the keysyms' numbers, the state of the keyboard and what is asked of it, and whether the
-- keymap repeats a key. Keycodes are those of evdev plus 8.
pub record XkbCommon : Type 1 where
  pub keysym : Keysym → ℕ
  pub upper_code_point : ℕ → ℕ
  pub State : Type 0
  pub update_key : State → ℕ → Bool → State
  pub update_mask : State → ℕ → ℕ → ℕ → ℕ → State
  pub get_utf32 : State → ℕ → ℕ
  pub get_one_sym : State → ℕ → ℕ
  pub is_active : State → Modifier → Bool
  pub layout : State → ℕ
  pub key_repeats : ℕ → Bool

-- The timer of a timerfd: the milliseconds to its first expiration, and between the later ones, 0 for
-- none.
pub record Timer : Type 0 where
  pub value : ℕ
  pub interval : ℕ

-- What the handlers send: QWS_EVT_MOUSE with position, buttons, wheel and time, QWS_EVT_KEY with the
-- code unit, the key, the modifiers, pressed and repeated, QWS_EVT_FOCUS, and xdg_toplevel_move.
pub data SeatEvent : Type 0 where
  mouse : ℕ → ℤ → ℤ → ℕ → ℤ → ℤ → SeatEvent
  key : ℕ → ℕ → ℕ → ℕ → Bool → Bool → SeatEvent
  focus : FocusEvent → SeatEvent
  move_toplevel : ℕ → ℕ → SeatEvent

module _ (xkb : XkbCommon) where
  -- qwswl_keyboard_state_t. `timer` is the state of the timerfd, `none` for disarmed; there is a
  -- timerfd from the start of the event loop on.
  pub record KeyboardState : Type 0 where
    pub xkb_state : xkb.State
    pub win : Option ℕ
    pub timer : Option Timer
    pub repeat_rate : ℤ
    pub repeat_delay : ℤ
    pub repeat_key : ℕ
    pub repeat_unicode : ℕ
    pub repeat_qt_key : ℕ

  pub record Seat : Type 0 where
    pub pointer : PointerState
    pub qt_last_x : ℤ
    pub qt_last_y : ℤ
    pub last_input_serial : ℕ
    pub focused : Option ℕ
    pub kbd : KeyboardState

  abbrev pub Handled : Type 0
  Handled = Option (Seat × List SeatEvent)
