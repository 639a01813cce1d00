-- ===== src/Examples/Seat.antt =====
-- The keyboard and the pointer of proxy/seat.c, with the keysyms' numbers of X11.
use qwswayland.Prelude.{
  ℕ, ◌≡◌, refl, true, false, Option, none, some, List, [], ◌∷◌, ◌++◌, ◌==◌, if◌then◌else◌, ◌>>=◌,
}
use qwswayland.Prelude.Int.{ℤ, pos, ◌+ℤ◌}
use qwswayland.Seat.Keys.{Keysym, key_pairs, as_array, search_table, keysym_to_qt_key}
use qwswayland.Seat.Keys.Search.{first_pair, search_lem, distinct, keysym_to_qt_key_lem}
use qwswayland.Seat.{SeatWindow, XkbCommon, Seat, Timer, SeatEvent, mouse}
use qwswayland.Seat.Pointer.{Button, pointer_button}
use qwswayland.Seat.Pointer.Inputs.{PointerInput, leaves, moves, clicks, seen, Agrees}
use qwswayland.Seat.Pointer.Inputs
use qwswayland.Seat.Pointer.Positions.{pointer_run, positions_agree}
use qwswayland.Seat.Pointer.Limits.{release_forgets}
use qwswayland.Seat.Keyboard.Repeat.{KeyInput, types, expires}
use qwswayland.Seat.Keyboard.Held.{held_after_all, keyboard_run, TicksHeld, repeats_held}

abbrev pub xkbcommon : Keysym → ℕ
xkbcommon Keysym.escape = 0xff1b
xkbcommon Keysym.tab = 0xff09
xkbcommon Keysym.iso_left_tab = 0xfe20
xkbcommon Keysym.back_space = 0xff08
xkbcommon Keysym.return = 0xff0d
xkbcommon Keysym.kp_enter = 0xff8d
xkbcommon Keysym.insert = 0xff63
xkbcommon Keysym.delete = 0xffff
xkbcommon Keysym.pause = 0xff13
xkbcommon Keysym.print = 0xff61
xkbcommon Keysym.sys_req = 0xff15
xkbcommon Keysym.clear = 0xff0b
xkbcommon Keysym.home = 0xff50
xkbcommon Keysym.end = 0xff57
xkbcommon Keysym.left = 0xff51
xkbcommon Keysym.up = 0xff52
xkbcommon Keysym.right = 0xff53
xkbcommon Keysym.down = 0xff54
xkbcommon Keysym.prior = 0xff55
xkbcommon Keysym.next = 0xff56
xkbcommon Keysym.shift_l = 0xffe1
xkbcommon Keysym.shift_r = 0xffe2
xkbcommon Keysym.shift_lock = 0xffe6
xkbcommon Keysym.control_l = 0xffe3
xkbcommon Keysym.control_r = 0xffe4
xkbcommon Keysym.meta_l = 0xffe7
xkbcommon Keysym.meta_r = 0xffe8
xkbcommon Keysym.alt_l = 0xffe9
xkbcommon Keysym.alt_r = 0xffea
xkbcommon Keysym.caps_lock = 0xffe5
xkbcommon Keysym.num_lock = 0xff7f
xkbcommon Keysym.scroll_lock = 0xff14
xkbcommon Keysym.super_l = 0xffeb
xkbcommon Keysym.super_r = 0xffec
xkbcommon Keysym.menu = 0xff67
xkbcommon Keysym.hyper_l = 0xffed
xkbcommon Keysym.hyper_r = 0xffee
xkbcommon Keysym.help = 0xff6a
xkbcommon Keysym.iso_level3_shift = 0xfe03
xkbcommon Keysym.multi_key = 0xff20
xkbcommon Keysym.mode_switch = 0xff7e
xkbcommon Keysym.kp_space = 0xff80
xkbcommon Keysym.kp_tab = 0xff89
xkbcommon Keysym.kp_home = 0xff95
xkbcommon Keysym.kp_left = 0xff96
xkbcommon Keysym.kp_up = 0xff97
xkbcommon Keysym.kp_right = 0xff98
xkbcommon Keysym.kp_down = 0xff99
xkbcommon Keysym.kp_prior = 0xff9a
xkbcommon Keysym.kp_next = 0xff9b
xkbcommon Keysym.kp_end = 0xff9c
xkbcommon Keysym.kp_begin = 0xff9d
xkbcommon Keysym.kp_insert = 0xff9e
xkbcommon Keysym.kp_delete = 0xff9f
xkbcommon Keysym.kp_equal = 0xffbd
xkbcommon Keysym.kp_multiply = 0xffaa
xkbcommon Keysym.kp_add = 0xffab
xkbcommon Keysym.kp_separator = 0xffac
xkbcommon Keysym.kp_subtract = 0xffad
xkbcommon Keysym.kp_decimal = 0xffae
xkbcommon Keysym.kp_divide = 0xffaf
xkbcommon Keysym.dead_grave = 0xfe50
xkbcommon Keysym.dead_acute = 0xfe51
xkbcommon Keysym.dead_circumflex = 0xfe52
xkbcommon Keysym.dead_tilde = 0xfe53
xkbcommon Keysym.dead_macron = 0xfe54
xkbcommon Keysym.dead_breve = 0xfe55
xkbcommon Keysym.dead_abovedot = 0xfe56
xkbcommon Keysym.dead_diaeresis = 0xfe57
xkbcommon Keysym.dead_abovering = 0xfe58
xkbcommon Keysym.dead_doubleacute = 0xfe59
xkbcommon Keysym.dead_caron = 0xfe5a
xkbcommon Keysym.dead_cedilla = 0xfe5b
xkbcommon Keysym.dead_ogonek = 0xfe5c
xkbcommon Keysym.dead_iota = 0xfe5d
xkbcommon Keysym.dead_voiced_sound = 0xfe5e
xkbcommon Keysym.dead_semivoiced_sound = 0xfe5f
xkbcommon Keysym.dead_belowdot = 0xfe60
xkbcommon Keysym.dead_hook = 0xfe61
xkbcommon Keysym.dead_horn = 0xfe62
xkbcommon Keysym.xf86_back = 0x1008ff26
xkbcommon Keysym.xf86_forward = 0x1008ff27
xkbcommon Keysym.xf86_stop = 0x1008ff28
xkbcommon Keysym.xf86_refresh = 0x1008ff29
xkbcommon Keysym.xf86_favorites = 0x1008ff30
xkbcommon Keysym.xf86_audio_media = 0x1008ff32
xkbcommon Keysym.xf86_home_page = 0x1008ff18
xkbcommon Keysym.xf86_search = 0x1008ff1b
xkbcommon Keysym.xf86_audio_lower_volume = 0x1008ff11
xkbcommon Keysym.xf86_audio_mute = 0x1008ff12
xkbcommon Keysym.xf86_audio_raise_volume = 0x1008ff13
xkbcommon Keysym.xf86_audio_play = 0x1008ff14
xkbcommon Keysym.xf86_audio_stop = 0x1008ff15
xkbcommon Keysym.xf86_audio_prev = 0x1008ff16
xkbcommon Keysym.xf86_audio_next = 0x1008ff17
xkbcommon Keysym.xf86_audio_record = 0x1008ff1c
xkbcommon Keysym.xf86_mail = 0x1008ff19
xkbcommon Keysym.f1 = 0xffbe
xkbcommon Keysym.f35 = 0xffe0
xkbcommon Keysym.kp_0 = 0xffb0
xkbcommon Keysym.kp_9 = 0xffb9

xkbcommon_nonzero : (k : Keysym) → (xkbcommon k == 0) ≡ false
xkbcommon_nonzero Keysym.escape = refl
xkbcommon_nonzero Keysym.tab = refl
xkbcommon_nonzero Keysym.iso_left_tab = refl
xkbcommon_nonzero Keysym.back_space = refl
xkbcommon_nonzero Keysym.return = refl
xkbcommon_nonzero Keysym.kp_enter = refl
xkbcommon_nonzero Keysym.insert = refl
xkbcommon_nonzero Keysym.delete = refl
xkbcommon_nonzero Keysym.pause = refl
xkbcommon_nonzero Keysym.print = refl
xkbcommon_nonzero Keysym.sys_req = refl
xkbcommon_nonzero Keysym.clear = refl
xkbcommon_nonzero Keysym.home = refl
xkbcommon_nonzero Keysym.end = refl
xkbcommon_nonzero Keysym.left = refl
xkbcommon_nonzero Keysym.up = refl
xkbcommon_nonzero Keysym.right = refl
xkbcommon_nonzero Keysym.down = refl
xkbcommon_nonzero Keysym.prior = refl
xkbcommon_nonzero Keysym.next = refl
xkbcommon_nonzero Keysym.shift_l = refl
xkbcommon_nonzero Keysym.shift_r = refl
xkbcommon_nonzero Keysym.shift_lock = refl
xkbcommon_nonzero Keysym.control_l = refl
xkbcommon_nonzero Keysym.control_r = refl
xkbcommon_nonzero Keysym.meta_l = refl
xkbcommon_nonzero Keysym.meta_r = refl
xkbcommon_nonzero Keysym.alt_l = refl
xkbcommon_nonzero Keysym.alt_r = refl
xkbcommon_nonzero Keysym.caps_lock = refl
xkbcommon_nonzero Keysym.num_lock = refl
xkbcommon_nonzero Keysym.scroll_lock = refl
xkbcommon_nonzero Keysym.super_l = refl
xkbcommon_nonzero Keysym.super_r = refl
xkbcommon_nonzero Keysym.menu = refl
xkbcommon_nonzero Keysym.hyper_l = refl
xkbcommon_nonzero Keysym.hyper_r = refl
xkbcommon_nonzero Keysym.help = refl
xkbcommon_nonzero Keysym.iso_level3_shift = refl
xkbcommon_nonzero Keysym.multi_key = refl
xkbcommon_nonzero Keysym.mode_switch = refl
xkbcommon_nonzero Keysym.kp_space = refl
xkbcommon_nonzero Keysym.kp_tab = refl
xkbcommon_nonzero Keysym.kp_home = refl
xkbcommon_nonzero Keysym.kp_left = refl
xkbcommon_nonzero Keysym.kp_up = refl
xkbcommon_nonzero Keysym.kp_right = refl
xkbcommon_nonzero Keysym.kp_down = refl
xkbcommon_nonzero Keysym.kp_prior = refl
xkbcommon_nonzero Keysym.kp_next = refl
xkbcommon_nonzero Keysym.kp_end = refl
xkbcommon_nonzero Keysym.kp_begin = refl
xkbcommon_nonzero Keysym.kp_insert = refl
xkbcommon_nonzero Keysym.kp_delete = refl
xkbcommon_nonzero Keysym.kp_equal = refl
xkbcommon_nonzero Keysym.kp_multiply = refl
xkbcommon_nonzero Keysym.kp_add = refl
xkbcommon_nonzero Keysym.kp_separator = refl
xkbcommon_nonzero Keysym.kp_subtract = refl
xkbcommon_nonzero Keysym.kp_decimal = refl
xkbcommon_nonzero Keysym.kp_divide = refl
xkbcommon_nonzero Keysym.dead_grave = refl
xkbcommon_nonzero Keysym.dead_acute = refl
xkbcommon_nonzero Keysym.dead_circumflex = refl
xkbcommon_nonzero Keysym.dead_tilde = refl
xkbcommon_nonzero Keysym.dead_macron = refl
xkbcommon_nonzero Keysym.dead_breve = refl
xkbcommon_nonzero Keysym.dead_abovedot = refl
xkbcommon_nonzero Keysym.dead_diaeresis = refl
xkbcommon_nonzero Keysym.dead_abovering = refl
xkbcommon_nonzero Keysym.dead_doubleacute = refl
xkbcommon_nonzero Keysym.dead_caron = refl
xkbcommon_nonzero Keysym.dead_cedilla = refl
xkbcommon_nonzero Keysym.dead_ogonek = refl
xkbcommon_nonzero Keysym.dead_iota = refl
xkbcommon_nonzero Keysym.dead_voiced_sound = refl
xkbcommon_nonzero Keysym.dead_semivoiced_sound = refl
xkbcommon_nonzero Keysym.dead_belowdot = refl
xkbcommon_nonzero Keysym.dead_hook = refl
xkbcommon_nonzero Keysym.dead_horn = refl
xkbcommon_nonzero Keysym.xf86_back = refl
xkbcommon_nonzero Keysym.xf86_forward = refl
xkbcommon_nonzero Keysym.xf86_stop = refl
xkbcommon_nonzero Keysym.xf86_refresh = refl
xkbcommon_nonzero Keysym.xf86_favorites = refl
xkbcommon_nonzero Keysym.xf86_audio_media = refl
xkbcommon_nonzero Keysym.xf86_home_page = refl
xkbcommon_nonzero Keysym.xf86_search = refl
xkbcommon_nonzero Keysym.xf86_audio_lower_volume = refl
xkbcommon_nonzero Keysym.xf86_audio_mute = refl
xkbcommon_nonzero Keysym.xf86_audio_raise_volume = refl
xkbcommon_nonzero Keysym.xf86_audio_play = refl
xkbcommon_nonzero Keysym.xf86_audio_stop = refl
xkbcommon_nonzero Keysym.xf86_audio_prev = refl
xkbcommon_nonzero Keysym.xf86_audio_next = refl
xkbcommon_nonzero Keysym.xf86_audio_record = refl
xkbcommon_nonzero Keysym.xf86_mail = refl
xkbcommon_nonzero Keysym.f1 = refl
xkbcommon_nonzero Keysym.f35 = refl
xkbcommon_nonzero Keysym.kp_0 = refl
xkbcommon_nonzero Keysym.kp_9 = refl

search_lem_example :
    search_table 0xff0d (as_array xkbcommon key_pairs)
    ≡ some (first_pair xkbcommon 0xff0d key_pairs)
search_lem_example = search_lem xkbcommon xkbcommon_nonzero 0xff0d key_pairs

keysym_to_qt_key_lem_example : keysym_to_qt_key xkbcommon (λ sym. 0) 0xffff ≡ some 0x01000007
unfolding distinct key_pairs
keysym_to_qt_key_lem_example =
    keysym_to_qt_key_lem xkbcommon (λ sym. 0) 7 Keysym.delete 0x01000007 xkbcommon_nonzero refl refl
      refl

-- A keyboard whose state is the list of its pressed keys, and whose keys all give `Return`.
abbrev keyboard : XkbCommon
keyboard = record {
  keysym = xkbcommon;
  upper_code_point = λ sym. 0;
  State = List ℕ;
  update_key = λ keys k down. if down then k ∷ keys else keys;
  update_mask = λ keys depressed latched locked group. keys;
  get_utf32 = λ keys k. 13;
  get_one_sym = λ keys k. 0xff0d;
  is_active = λ keys m. false;
  layout = λ keys. 0;
  key_repeats = λ k. true;
}

abbrev window : ℕ → SeatWindow
window address = record { x = pos 10; y = pos 20; xdg_toplevel = false }

abbrev whole : ℤ → ℤ
whole z = z

abbrev seat : Option ℕ → Option Timer → Seat keyboard
seat win timer = record {
  pointer = record {
    win = win;
    gx = pos 12;
    gy = pos 23;
    button_state = 0;
    button_serial = 0;
    enter_serial = 0;
  };
  qt_last_x = pos 12;
  qt_last_y = pos 23;
  last_input_serial = 0;
  focused = none;
  kbd = record {
    xkb_state = [];
    win = win;
    timer = timer;
    repeat_rate = pos 25;
    repeat_delay = pos 400;
    repeat_key = 28;
    repeat_unicode = 13;
    repeat_qt_key = 0x01000004;
  };
}

-- Entering another window, pressing a button there and leaving.
abbrev visit : List ((ℕ → SeatWindow) × PointerInput)
visit =
    (window, Inputs.enters 1 (some 7) (pos 3) (pos 4) (pos 0))
    ∷ (window, clicks 2 Button.left true (pos 5))
    ∷ (window, moves (pos 4) (pos 4) (pos 6))
    ∷ (window, leaves)
    ∷ []

positions_agree_example :
    (s' : Seat keyboard) × (es : List SeatEvent) × (pointer_run keyboard whole whole
        (seat none none)
        visit
      ≡ some (s', es))
    × Agrees keyboard whole whole none s' (seen (pos 12, pos 23) es)
unfolding ◌+ℤ◌
positions_agree_example =
    positions_agree keyboard whole whole (seat none none) (pos 12, pos 23) none none visit refl refl

release_forgets_example :
    (s' : Seat keyboard) × (es : List SeatEvent) × ((pointer_button keyboard window whole
          (seat (some 7) none)
          5
          Button.left
          true
          (pos 0)
        >>= λ (s1, _).
            pointer_button keyboard window whole s1 5 Button.right true (pos 0) >>= λ (s2, _).
            pointer_button keyboard window whole s2 5 Button.right false (pos 0))
      ≡ some (s', es ++ mouse 7 (pos 12) (pos 23) 0 (pos 0) (pos 0) ∷ []))
    × (s'.pointer.button_state ≡ 0)
release_forgets_example =
    release_forgets keyboard window whole whole (seat (some 7) none) 7 5 Button.left Button.right
      (pos 0) refl

-- A key that is pressed and repeated.
abbrev strokes : List KeyInput
strokes = types 3 28 true ∷ expires ∷ types 4 30 true ∷ types 5 28 false ∷ expires ∷ []

repeats_held_example :
    (s' : Seat keyboard) × (sent : List (List SeatEvent)) × (keyboard_run keyboard window
        (seat (some 7) none)
        strokes
      ≡ some (s', sent))
    × TicksHeld keyboard window s'.kbd.timer (some 7) (held_after_all [] strokes sent) s'
repeats_held_example =
    repeats_held keyboard window xkbcommon_nonzero (seat (some 7) none) [] (some 7) strokes refl
      refl
