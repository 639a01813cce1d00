-- ===== src/Seat/Pointer.antt =====
-- The pointer's listener in proxy/seat.c. `fixed_to_int` is wl_fixed_to_int, `wheel_delta` the wheel's
-- conversion through a floating point number, and `time` the clock's milliseconds.
pub mod Inputs
pub mod Positions
pub mod Limits
use qwswayland.Prelude.{
  ℕ, Bool, true, false, ◌&&◌, Option, none, some, List, [], ◌∷◌, ◌++◌, map, ◌==◌, if◌then◌else◌,
  ◌>>=◌,
}
use qwswayland.Prelude.Int.{ℤ, pos, ◌+ℤ◌, eqb_ℤ, leb_ℤ}
use qwswayland.Focus.{qwswl_window_set_focus}
use qwswayland.Seat.{
  SeatWindow, PointerState, XkbCommon, Seat, Handled, SeatEvent, mouse, focus, move_toplevel,
}

-- QWS_BTN_...
abbrev pub btn_left : ℕ
btn_left = 0x01

abbrev pub btn_right : ℕ
btn_right = 0x02

abbrev pub btn_middle : ℕ
btn_middle = 0x04

-- The buttons of evdev.
pub data Button : Type 0 where
  left right middle other : Button

unfoldable pub qt_button : Button → ℕ
qt_button left = btn_left
qt_button right = btn_right
qt_button middle = btn_middle
qt_button other = 0

-- The memset, and what enter stores.
abbrev pub zeroed : ℕ → ℕ → PointerState
zeroed win serial = record {
  win = some win;
  gx = pos 0;
  gy = pos 0;
  button_state = 0;
  button_serial = 0;
  enter_serial = serial;
}

module _ (xkb : XkbCommon) (heap : ℕ → SeatWindow) (fixed_to_int : ℤ → ℤ) where
  -- The window and its client are read through `pstate->win`.
  abbrev pub pointer_report : PointerState → ℤ → ℤ → Option ℕ → Option (List SeatEvent)
  pointer_report p delta time none = none
  pointer_report p delta time (some win) = some (mouse win p.gx p.gy p.button_state delta time ∷ [])

  unfoldable pub send_pointer_update_event : PointerState → ℤ → ℤ → Option (List SeatEvent)
  send_pointer_update_event p delta time = pointer_report p delta time p.win

  abbrev pub with_events : Seat xkb → Option (List SeatEvent) → Handled xkb
  with_events s events = events >>= λ es. some (s, es)

  abbrev pub move_to : Seat xkb → ℤ → ℤ → ℤ → Handled xkb
  move_to s gx gy time =
      if eqb_ℤ gx s.pointer.gx && eqb_ℤ gy s.pointer.gy
      then some (s, [])
      else (let p = record s.pointer { gx = gx; gy = gy } in
          with_events (record s { pointer = p; qt_last_x = gx; qt_last_y = gy })
            (send_pointer_update_event p (pos 0) time))

  unfoldable pub update_pointer_position : Seat xkb → ℤ → ℤ → ℤ → Handled xkb
  unfolding send_pointer_update_event
  update_pointer_position s sx sy time = s.pointer.win >>= λ win.
      move_to s ((heap win).x +ℤ fixed_to_int sx) ((heap win).y +ℤ fixed_to_int sy) time

  -- `surface` is what qwswl_surface_to_win finds.
  unfoldable pub pointer_enter : Seat xkb → ℕ → Option ℕ → ℤ → ℤ → ℤ → Handled xkb
  unfolding update_pointer_position
  pointer_enter s serial surface sx sy time = surface >>= λ win.
      update_pointer_position (record s { pointer = zeroed win serial }) sx sy time

  unfoldable pub pointer_leave : Seat xkb → Handled xkb
  pointer_leave s = some (record s { pointer = record s.pointer { win = none } }, [])

  abbrev pub move_or_report : Seat xkb → ℕ → ℤ → ℤ → ℤ → Handled xkb
  move_or_report s win sx sy time =
      if leb_ℤ (fixed_to_int sy) (pos 35)
        && ((s.pointer.button_state == btn_left) && (heap win).xdg_toplevel)
      then some (s, move_toplevel win s.pointer.button_serial ∷ [])
      else update_pointer_position s sx sy time

  unfoldable pub pointer_motion : Seat xkb → ℤ → ℤ → ℤ → Handled xkb
  unfolding update_pointer_position
  pointer_motion s sx sy time = s.pointer.win >>= λ win. move_or_report s win sx sy time

  abbrev pub focus_pressed : Bool → Option ℕ → Option ℕ → Option ℕ × List SeatEvent
  focus_pressed pressed focused none = (focused, [])
  focus_pressed pressed focused (some win) =
      if pressed
      then (let (focused', events) =
            qwswl_window_set_focus focused win (heap win).xdg_toplevel true true in
          (focused', map focus events))
      else (focused, [])

  unfoldable pub pointer_button : Seat xkb → ℕ → Button → Bool → ℤ → Handled xkb
  unfolding qt_button send_pointer_update_event qwswl_window_set_focus
  pointer_button s serial button pressed time =
      let (focused, focus_events) = focus_pressed pressed s.focused s.pointer.win in
      let p = record s.pointer {
        button_state = (if pressed then qt_button button else 0);
        button_serial = serial;
      } in
      let s' = record s { pointer = p; focused = focused; last_input_serial = serial } in
      send_pointer_update_event p (pos 0) time >>= λ es. some (s', focus_events ++ es)

  -- `vertical` tells whether the axis is WL_POINTER_AXIS_VERTICAL_SCROLL.
  unfoldable pub pointer_axis : (ℤ → ℤ) → Seat xkb → Bool → ℤ → ℤ → Handled xkb
  unfolding send_pointer_update_event
  pointer_axis wheel_delta s vertical value time =
      if vertical
      then with_events s (send_pointer_update_event s.pointer (wheel_delta value) time)
      else some (s, [])
