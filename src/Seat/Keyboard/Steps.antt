-- ===== src/Seat/Keyboard/Steps.antt =====
-- Each input of the keyboard of proxy/seat.c keeps the repeat to the keys that are held.
use qwswayland.Prelude.{
  ℕ, ◌%◌, ◌^◌, ◌≡◌, refl, sym, ap, subst, Bool, true, false, Option, none, some, List, [], ◌∷◌,
  ◌==◌, if◌then◌else◌, ◌>>=◌, arith, Bool-cases, inl, inr, none-ne-some, some-inj,
}
use qwswayland.Seat.Keys.{Keysym}
use qwswayland.Seat.Keys.Search.{keysym_total}
use qwswayland.Seat.{SeatWindow, XkbCommon, KeyboardState, Seat, Timer, SeatEvent, key}
use qwswayland.Seat.Keyboard.{
  keycode, qwswl_xkb_modifiers, keyboard_enter, keyboard_leave, keyboard_key, keyboard_modifiers,
  keyboard_repeat_info, qwswl_keyboard_repeat_tick, update_repeat, set_focus, lose_focus,
  kbd_repeat_disarm, send_key_event, press_all,
}
use qwswayland.Seat.Keyboard.Repeat.{
  Note, repeated, KeyInput, enters, leaves, types, modifies, tunes, expires, held_after, entered,
  expired, keyboard_step, OnlyHeld, Repeats, idle, update_repeat-Repeats,
}

module _ (xkb : XkbCommon) (heap : ℕ → SeatWindow) where
  -- What an input does when those keys are held before, and the window that has the keyboard then.
  abbrev pub Stepped : Seat xkb → KeyInput → Option ℕ → List Note → Type 0
  Stepped s input inside held =
      (s' : Seat xkb) × (es : List SeatEvent) × (keyboard_step xkb heap s input ≡ some (s', es))
      × Repeats xkb heap inside (held_after held input es) s'.kbd

  kbd_of_lose : (s : Seat xkb) (surface : Option ℕ) → (lose_focus xkb heap s surface).0.kbd ≡ s.kbd
  kbd_of_lose s none = refl
  kbd_of_lose s (some win) = refl

  pub tick_lem :
      (s : Seat xkb) (win : ℕ)
      → s.kbd.win ≡ some win
      → qwswl_keyboard_repeat_tick xkb heap s
        ≡ some (
          s,
          key win s.kbd.repeat_unicode s.kbd.repeat_qt_key
                (qwswl_xkb_modifiers xkb heap s.kbd.xkb_state)
                true
                true
              ∷ [],
        )
  unfolding qwswl_keyboard_repeat_tick send_key_event
  tick_lem s win e = ground (arith, e)

  expire_steps :
      (s : Seat xkb) (inside : Option ℕ) (held : List Note) (timer : Option Timer)
      → s.kbd.timer ≡ timer
      → Repeats xkb heap inside held s.kbd
      → (s' : Seat xkb) × (es : List SeatEvent) × (expired xkb heap s timer ≡ some (s', es))
        × Repeats xkb heap inside held s'.kbd
  expire_steps s inside held none e r = (s, [], refl, r)
  expire_steps s none held (some t) e r =
      absurd (subst (λ o. OnlyHeld xkb heap o none (repeated xkb heap s.kbd) held) e r.only_held)
  expire_steps s (some win) held (some t) e r =
      let h : OnlyHeld xkb heap (some t) (some win) (repeated xkb heap s.kbd) held =
        subst (λ o. OnlyHeld xkb heap o (some win) (repeated xkb heap s.kbd) held) e r.only_held in
      let timer' : Option Timer = (if t.interval == 0 then none else some t) in
      (
        record s { kbd = record s.kbd { timer = timer' } },
        key win s.kbd.repeat_unicode s.kbd.repeat_qt_key
              (qwswl_xkb_modifiers xkb heap s.kbd.xkb_state) true true
            ∷ [],
        ap (λ o. o >>= λ (s', es). some (record s' { kbd = record s'.kbd { timer = timer' } }, es))
            (tick_lem s win r.win_is),
        record {
          win_is = r.win_is;
          only_held = elim (Bool-cases (t.interval == 0)) [ inl z ↦ rw z tt | inr n ↦ rw n h ];
        },
      )

  module _ (nonzero : (k : Keysym) → (xkb.keysym k == 0) ≡ false) where
    type_steps :
        (s : Seat xkb) (win serial code : ℕ) (pressed : Bool) (held : List Note)
        → Repeats xkb heap (some win) held s.kbd
        → Stepped s (types serial code pressed) (some win) held
    unfolding keyboard_key send_key_event
    type_steps s win serial code pressed held r =
        let state = s.kbd.xkb_state in
        let unicode = xkb.get_utf32 state (keycode xkb heap code) % 2 ^ 16 in
        let k : KeyboardState xkb = record s.kbd {
          xkb_state = xkb.update_key state (keycode xkb heap code) pressed;
        } in
        let (q, e) =
          keysym_total xkb.keysym nonzero xkb.upper_code_point
            (xkb.get_one_sym state (keycode xkb heap code)) in
        (
          record s {
            last_input_serial = serial;
            kbd = update_repeat xkb heap k code unicode q pressed;
          },
          key win unicode q (qwswl_xkb_modifiers xkb heap k.xkb_state) pressed false ∷ [],
          rw e (ground (arith, r.win_is)),
          update_repeat-Repeats xkb heap k win code unicode q
              (qwswl_xkb_modifiers xkb heap k.xkb_state) pressed held serial
              (record { win_is = r.win_is; only_held = r.only_held }),
        )

    pub step_lem :
        (s : Seat xkb) (inside after : Option ℕ) (held : List Note) (input : KeyInput)
        → Repeats xkb heap inside held s.kbd
        → entered inside input ≡ some after
        → Stepped s input after held
    unfolding keyboard_enter keyboard_leave keyboard_modifiers keyboard_repeat_info
        kbd_repeat_disarm
    step_lem s none after held (enters win keys) r e =
        let k : KeyboardState xkb = record s.kbd {
          win = some win;
          xkb_state = press_all xkb heap s.kbd.xkb_state keys;
        } in
        let (s', es) = set_focus xkb heap (record s { kbd = k }) win true in
        subst (λ o. Stepped s (enters win keys) o held) (some-inj e)
          (
            s',
            es,
            refl,
            record {
              win_is = refl;
              only_held =
                  subst (λ t. OnlyHeld xkb heap t (some win) (repeated xkb heap s.kbd) [])
                    (sym (idle xkb heap s.kbd.timer (repeated xkb heap s.kbd) held r.only_held)) tt;
            },
          )
    step_lem s (some old) after held (enters win keys) r e = absurd (none-ne-some e)
    step_lem s inside after held (leaves surface) r e =
        let s0 : Seat xkb = record s {
          kbd = kbd_repeat_disarm xkb heap (record s.kbd { win = none });
        } in
        let (s', es) = lose_focus xkb heap s0 surface in
        subst (λ o. Stepped s (leaves surface) o held) (some-inj e)
          (
            s',
            es,
            refl,
            subst (Repeats xkb heap none []) (sym (kbd_of_lose s0 surface))
                (record { win_is = refl; only_held = tt }),
          )
    step_lem s none after held (types serial code pressed) r e = absurd (none-ne-some e)
    step_lem s (some win) after held (types serial code pressed) r e =
        subst (λ o. Stepped s (types serial code pressed) o held) (some-inj e)
          (type_steps s win serial code pressed held r)
    step_lem s inside after held (modifies depressed latched locked group) r e =
        subst (λ o. Stepped s (modifies depressed latched locked group) o held) (some-inj e)
          (
            record s {
              kbd = record s.kbd {
                xkb_state = xkb.update_mask s.kbd.xkb_state depressed latched locked group;
              };
            },
            [],
            refl,
            record { win_is = r.win_is; only_held = r.only_held },
          )
    step_lem s inside after held (tunes rate delay) r e =
        subst (λ o. Stepped s (tunes rate delay) o held) (some-inj e)
          (
            record s { kbd = record s.kbd { repeat_rate = rate; repeat_delay = delay } },
            [],
            refl,
            record { win_is = r.win_is; only_held = r.only_held },
          )
    step_lem s inside after held expires r e =
        subst (λ o. Stepped s expires o held) (some-inj e)
          (expire_steps s inside held s.kbd.timer refl r)
