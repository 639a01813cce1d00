-- ===== src/Seat/Keyboard.antt =====
-- The keyboard's listener and the key repeat in proxy/seat.c. The keymap that the compositor sends is
-- xkbcommon's.
pub mod Repeat
pub mod Steps
pub mod Held
use qwswayland.Prelude.{
  ℕ, zero, suc, ◌+◌, ◌/◌, ◌%◌, ◌^◌, Bool, true, false, ◌&&◌, Option, none, some, List, [], ◌∷◌, map,
  ◌==◌, ltb, if◌then◌else◌, ◌>>=◌,
}
use qwswayland.Prelude.Int.{ℤ, pos, negsuc, ltb_ℤ, pos_part}
use qwswayland.Focus.{qwswl_window_set_focus}
use qwswayland.Seat.Keys.{keysym_to_qt_key}
use qwswayland.Seat.{
  SeatWindow, Modifier, shift, ctrl, alt, logo, num, XkbCommon, KeyboardState, Seat, Handled, Timer,
  SeatEvent, key, focus,
}

module _ (xkb : XkbCommon) (heap : ℕ → SeatWindow) where
  abbrev pub flag_of : Bool → ℕ → ℕ
  flag_of active flag = if active then flag else 0

  -- QWS_MOD_...; the flags share no bit, so `|=` adds them.
  unfoldable pub qwswl_xkb_modifiers : xkb.State → ℕ
  qwswl_xkb_modifiers state =
      flag_of (xkb.is_active state shift) 0x02000000
      + flag_of (xkb.is_active state ctrl) 0x04000000
      + flag_of (xkb.is_active state alt) 0x08000000
      + flag_of (xkb.is_active state logo) 0x10000000
      + flag_of (xkb.is_active state num) 0x20000000
      + flag_of (ltb 0 (xkb.layout state)) 0x40000000

  unfoldable pub kbd_repeat_disarm : KeyboardState xkb → KeyboardState xkb
  kbd_repeat_disarm k = record k { timer = none; repeat_key = 0 }

  -- The window and its client are read through `kbd_state->win`.
  unfoldable pub send_key_event : KeyboardState xkb → ℕ → ℕ → Bool → Bool → Option (List SeatEvent)
  unfolding qwswl_xkb_modifiers
  send_key_event k unicode qt_key is_press auto_repeat = k.win >>= λ win.
      some (key win unicode qt_key (qwswl_xkb_modifiers k.xkb_state) is_press auto_repeat ∷ [])

  -- An evdev code as xkbcommon's keycode.
  abbrev pub keycode : ℕ → ℕ
  keycode code = (code + 8) % 2 ^ 32

  -- The loop over the keys that are held on entering.
  unfoldable pub press_all : xkb.State → List ℕ → xkb.State
  press_all state [] = state
  press_all state (k ∷ keys) = press_all (xkb.update_key state (keycode k) true) keys

  abbrev pub set_focus : Seat xkb → ℕ → Bool → Seat xkb × List SeatEvent
  set_focus s win focused =
      let (focused', events) =
        qwswl_window_set_focus s.focused win (heap win).xdg_toplevel focused true in
      (record s { focused = focused' }, map focus events)

  unfoldable pub keyboard_enter : Seat xkb → Option ℕ → List ℕ → Handled xkb
  unfolding press_all qwswl_window_set_focus
  keyboard_enter s surface keys = surface >>= λ win.
      let k = record s.kbd { win = some win; xkb_state = press_all s.kbd.xkb_state keys } in
      some (set_focus (record s { kbd = k }) win true)

  abbrev pub lose_focus : Seat xkb → Option ℕ → Seat xkb × List SeatEvent
  lose_focus s none = (s, [])
  lose_focus s (some win) = set_focus s win false

  unfoldable pub keyboard_leave : Seat xkb → Option ℕ → Handled xkb
  unfolding kbd_repeat_disarm qwswl_window_set_focus
  keyboard_leave s surface =
      some (lose_focus (record s { kbd = kbd_repeat_disarm (record s.kbd { win = none }) }) surface)

  -- timerfd_settime: a first expiration of 0 disarms, and a negative one is refused.
  unfoldable pub timerfd_settime : ℤ → ℕ → Option Timer → Option Timer
  timerfd_settime (pos zero) interval old = none
  timerfd_settime (pos (suc n)) interval old = some (record { value = suc n; interval = interval })
  timerfd_settime (negsuc n) interval old = old

  -- Arming or disarming after a key.
  unfoldable pub update_repeat : KeyboardState xkb → ℕ → ℕ → ℕ → Bool → KeyboardState xkb
  unfolding kbd_repeat_disarm timerfd_settime
  update_repeat k code unicode qt_key is_press =
      if is_press
      then (if ltb_ℤ (pos 0) k.repeat_rate && xkb.key_repeats (keycode code)
          then record k {
            repeat_key = code;
            repeat_unicode = unicode;
            repeat_qt_key = qt_key;
            timer = timerfd_settime k.repeat_delay (1000 / pos_part k.repeat_rate) k.timer;
          }
          else k)
      else if code == k.repeat_key
      then kbd_repeat_disarm k
      else k

  unfoldable pub keyboard_key : Seat xkb → ℕ → ℕ → Bool → Handled xkb
  unfolding keysym_to_qt_key send_key_event update_repeat
  keyboard_key s serial code is_press =
      let state = s.kbd.xkb_state in
      let unicode = xkb.get_utf32 state (keycode code) % 2 ^ 16 in
      let k = record s.kbd { xkb_state = xkb.update_key state (keycode code) is_press } in
      keysym_to_qt_key xkb.keysym xkb.upper_code_point (xkb.get_one_sym state (keycode code))
      >>= λ qt_key. send_key_event k unicode qt_key is_press false >>= λ es. some (
        record s { last_input_serial = serial; kbd = update_repeat k code unicode qt_key is_press },
        es,
      )

  unfoldable pub keyboard_modifiers : Seat xkb → ℕ → ℕ → ℕ → ℕ → Handled xkb
  keyboard_modifiers s depressed latched locked group = some (
    record s {
      kbd = record s.kbd {
        xkb_state = xkb.update_mask s.kbd.xkb_state depressed latched locked group;
      };
    },
    [],
  )

  unfoldable pub keyboard_repeat_info : Seat xkb → ℤ → ℤ → Handled xkb
  keyboard_repeat_info s rate delay =
      some (record s { kbd = record s.kbd { repeat_rate = rate; repeat_delay = delay } }, [])

  -- The event loop calls it when the timer has expired.
  unfoldable pub qwswl_keyboard_repeat_tick : Seat xkb → Handled xkb
  unfolding send_key_event
  qwswl_keyboard_repeat_tick s = elim s.kbd.win [
    | none ↦ some (s, [])
    | some win ↦ send_key_event s.kbd s.kbd.repeat_unicode s.kbd.repeat_qt_key true true >>= λ es.
        some (s, es)
  ]
