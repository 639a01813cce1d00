-- ===== src/Seat/Pointer/Inputs.antt =====
-- What the compositor reports of the pointer, and what each report does to the position that the
-- clients know, in proxy/seat.c.
use qwswayland.Prelude.{
  ℕ, ◌≡◌, refl, sym, ap, ◌∙◌, Bool, true, false, ◌&&◌, Option, none, some, List, [], ◌∷◌, ◌++◌,
  ◌==◌, if◌then◌else◌, ◌>>=◌, arith, Bool-cases, inl, inr,
}
use qwswayland.Prelude.Int.{ℤ, pos, ◌+ℤ◌, eqb_ℤ, leb_ℤ}
use qwswayland.Seat.{
  SeatWindow, PointerState, XkbCommon, Seat, Handled, SeatEvent, mouse, key, focus, move_toplevel,
}
use qwswayland.Seat.Pointer.{
  Button, zeroed, qt_button, pointer_report, btn_left, move_or_report, update_pointer_position,
  pointer_enter, pointer_leave, pointer_motion, pointer_button, pointer_axis,
  send_pointer_update_event, move_to, focus_pressed,
}

-- What the compositor reports.
pub data PointerInput : Type 0 where
  enters : ℕ → Option ℕ → ℤ → ℤ → ℤ → PointerInput
  leaves : PointerInput
  moves : ℤ → ℤ → ℤ → PointerInput
  clicks : ℕ → Button → Bool → ℤ → PointerInput
  scrolls : Bool → ℤ → ℤ → PointerInput

-- The position in the last mouse event.
abbrev pub seen : ℤ × ℤ → List SeatEvent → ℤ × ℤ
seen p [] = p
seen p (mouse win gx gy buttons delta time ∷ es) = seen (gx, gy) es
seen p (key win unicode qt_key mods pressed repeated ∷ es) = seen p es
seen p (focus e ∷ es) = seen p es
seen p (move_toplevel win serial ∷ es) = seen p es

pub seen-append : (p : ℤ × ℤ) (es fs : List SeatEvent) → seen p (es ++ fs) ≡ seen (seen p es) fs
seen-append p [] fs = refl
seen-append p (mouse win gx gy buttons delta time ∷ es) fs = seen-append (gx, gy) es fs
seen-append p (key win unicode qt_key mods pressed repeated ∷ es) fs = seen-append p es fs
seen-append p (focus e ∷ es) fs = seen-append p es fs
seen-append p (move_toplevel win serial ∷ es) fs = seen-append p es fs

module _ (xkb : XkbCommon) (fixed_to_int wheel_delta : ℤ → ℤ) where
  -- The windows may move between the inputs: each comes with the objects of its time.
  abbrev pub pointer_step : (ℕ → SeatWindow) → Seat xkb → PointerInput → Handled xkb
  pointer_step heap s (enters serial surface sx sy time) =
      pointer_enter xkb heap fixed_to_int s serial surface sx sy time
  pointer_step heap s leaves = pointer_leave xkb heap fixed_to_int s
  pointer_step heap s (moves sx sy time) = pointer_motion xkb heap fixed_to_int s sx sy time
  pointer_step heap s (clicks serial button pressed time) =
      pointer_button xkb heap fixed_to_int s serial button pressed time
  pointer_step heap s (scrolls vertical value time) =
      pointer_axis xkb heap fixed_to_int wheel_delta s vertical value time

  -- The state inside a window, which is the one that is known.
  pub record Inside (s : Seat xkb) (view : ℤ × ℤ) (win : ℕ) : Type 0 where
    pub win_is : s.pointer.win ≡ some win
    pub gx_is : s.pointer.gx ≡ view.0
    pub gy_is : s.pointer.gy ≡ view.1
    pub qt_last_x_is : s.qt_last_x ≡ view.0
    pub qt_last_y_is : s.qt_last_y ≡ view.1

  move_Inside :
      (heap : ℕ → SeatWindow) (s : Seat xkb) (view : ℤ × ℤ) (win : ℕ) (gx gy time : ℤ)
      → Inside s view win
      → (s' : Seat xkb) × (es : List SeatEvent) × (move_to xkb heap fixed_to_int s gx gy time
          ≡ some (s', es))
        × Inside s' (seen view es) win
  unfolding send_pointer_update_event
  move_Inside heap s view win gx gy time h =
      elim (Bool-cases (eqb_ℤ gx s.pointer.gx && eqb_ℤ gy s.pointer.gy)) [
        | inl same ↦ (s, [], rw same refl, h)
        | inr moved ↦
            let p : PointerState = record s.pointer { gx = gx; gy = gy } in
            (
              record s { pointer = p; qt_last_x = gx; qt_last_y = gy },
              mouse win gx gy s.pointer.button_state (pos 0) time ∷ [],
              rw moved (ground (arith, h.win_is)),
              record {
                win_is = h.win_is;
                gx_is = refl;
                gy_is = refl;
                qt_last_x_is = refl;
                qt_last_y_is = refl;
              },
            )
      ]

  abbrev pub Agrees : Option ℕ → Seat xkb → ℤ × ℤ → Type 0
  Agrees none s view = s.pointer.win ≡ none
  Agrees (some win) s view = Inside s view win

  -- The window that the pointer is in after an input, if the input can come then.
  abbrev pub entered : (ℕ → SeatWindow) → Option ℕ → PointerInput → Option (Option ℕ)
  entered heap inside (enters serial none sx sy time) = none
  entered heap inside (enters serial (some win) sx sy time) =
      if eqb_ℤ ((heap win).x +ℤ fixed_to_int sx) (pos 0)
        && eqb_ℤ ((heap win).y +ℤ fixed_to_int sy) (pos 0)
      then none
      else some (some win)
  entered heap inside leaves = some none
  entered heap none (moves sx sy time) = none
  entered heap (some win) (moves sx sy time) = some (some win)
  entered heap none (clicks serial button pressed time) = none
  entered heap (some win) (clicks serial button pressed time) = some (some win)
  entered heap none (scrolls vertical value time) = none
  entered heap (some win) (scrolls vertical value time) = some (some win)

  abbrev pub Stepped : (ℕ → SeatWindow) → Seat xkb → ℤ × ℤ → PointerInput → Option ℕ → Type 0
  Stepped heap s view input inside =
      (s' : Seat xkb) × (es : List SeatEvent) × (pointer_step heap s input ≡ some (s', es))
      × Agrees inside s' (seen view es)

  pub enter_steps :
      (heap : ℕ → SeatWindow) (s : Seat xkb) (view : ℤ × ℤ) (serial win : ℕ) (sx sy time : ℤ)
      → (eqb_ℤ ((heap win).x +ℤ fixed_to_int sx) (pos 0)
          && eqb_ℤ ((heap win).y +ℤ fixed_to_int sy) (pos 0))
        ≡ false
      → Stepped heap s view (enters serial (some win) sx sy time) (some win)
  unfolding pointer_enter
  enter_steps heap s view serial win sx sy time away =
      let gx = (heap win).x +ℤ fixed_to_int sx in
      let gy = (heap win).y +ℤ fixed_to_int sy in
      let p : PointerState = record (zeroed win serial) { gx = gx; gy = gy } in
      (
        record s { pointer = p; qt_last_x = gx; qt_last_y = gy },
        mouse win gx gy 0 (pos 0) time ∷ [],
        rw away refl,
        record {
          win_is = refl;
          gx_is = refl;
          gy_is = refl;
          qt_last_x_is = refl;
          qt_last_y_is = refl;
        },
      )

  updated_at :
      (heap : ℕ → SeatWindow) (s : Seat xkb) (win : ℕ) (sx sy time : ℤ)
      → s.pointer.win ≡ some win
      → update_pointer_position xkb heap fixed_to_int s sx sy time
        ≡ move_to xkb heap fixed_to_int s
            ((heap win).x +ℤ fixed_to_int sx)
            ((heap win).y +ℤ fixed_to_int sy)
            time
  unfolding update_pointer_position
  updated_at heap s win sx sy time e =
      ap
        (λ o. o >>= λ w.
          move_to xkb heap fixed_to_int s ((heap w).x +ℤ fixed_to_int sx)
            ((heap w).y +ℤ fixed_to_int sy) time)
        e

  pub motion_steps :
      (heap : ℕ → SeatWindow) (s : Seat xkb) (view : ℤ × ℤ) (win : ℕ) (sx sy time : ℤ)
      → Inside s view win
      → Stepped heap s view (moves sx sy time) (some win)
  unfolding pointer_motion
  motion_steps heap s view win sx sy time h =
      elim (Bool-cases (
        leb_ℤ (fixed_to_int sy) (pos 35)
        && ((s.pointer.button_state == btn_left) && (heap win).xdg_toplevel))) [
          | inl drag ↦
              (s, move_toplevel win s.pointer.button_serial ∷ [], ground (arith, h.win_is, drag), h)
          | inr stay ↦
              let (s', es, e, h') =
                move_Inside heap s view win ((heap win).x +ℤ fixed_to_int sx)
                  ((heap win).y +ℤ fixed_to_int sy) time h in
              (
                s',
                es,
                ap (λ o. o >>= λ w. move_or_report xkb heap fixed_to_int s w sx sy time) h.win_is
                    ∙ rw stay (updated_at heap s win sx sy time h.win_is ∙ e),
                h',
              )
        ]

  pub click_steps :
      (heap : ℕ → SeatWindow) (s : Seat xkb) (view : ℤ × ℤ) (win serial : ℕ) (button : Button)
      (pressed : Bool) (time : ℤ)
      → Inside s view win
      → Stepped heap s view (clicks serial button pressed time) (some win)
  unfolding pointer_button
  click_steps heap s view win serial button pressed time h =
      let (focused, fes) = focus_pressed xkb heap fixed_to_int pressed s.focused s.pointer.win in
      let p : PointerState = record s.pointer {
        button_state = (if pressed then qt_button button else 0);
        button_serial = serial;
      } in
      let report = mouse win p.gx p.gy p.button_state (pos 0) time ∷ [] in
      let last = sym (seen-append view fes report) in
      (
        record s { pointer = p; focused = focused; last_input_serial = serial },
        fes ++ report,
        ap
            (λ o. pointer_report xkb heap fixed_to_int p (pos 0) time o >>= λ es.
              some (
                record s { pointer = p; focused = focused; last_input_serial = serial },
                fes ++ es,
              ))
            h.win_is,
        record {
          win_is = h.win_is;
          gx_is = ap (λ v. v.0) last;
          gy_is = ap (λ v. v.1) last;
          qt_last_x_is = h.qt_last_x_is ∙ sym h.gx_is ∙ ap (λ v. v.0) last;
          qt_last_y_is = h.qt_last_y_is ∙ sym h.gy_is ∙ ap (λ v. v.1) last;
        },
      )

  pub scroll_steps :
      (heap : ℕ → SeatWindow) (s : Seat xkb) (view : ℤ × ℤ) (win : ℕ) (vertical : Bool)
      (value time : ℤ)
      → Inside s view win
      → Stepped heap s view (scrolls vertical value time) (some win)
  unfolding pointer_axis
  scroll_steps heap s view win false value time h = (s, [], refl, h)
  scroll_steps heap s view win true value time h = (
    s,
    mouse win s.pointer.gx s.pointer.gy s.pointer.button_state (wheel_delta value) time ∷ [],
    ground (arith, h.win_is),
    record {
      win_is = h.win_is;
      gx_is = refl;
      gy_is = refl;
      qt_last_x_is = h.qt_last_x_is ∙ sym h.gx_is;
      qt_last_y_is = h.qt_last_y_is ∙ sym h.gy_is;
    },
  )
