-- ===== src/Seat/Pointer/Limits.antt =====
-- Where the pointer's listener in proxy/seat.c tells the clients less than happens.
use qwswayland.Prelude.{
  ℕ, ◌≡◌, refl, ap, ap₂, ◌∙◌, Bool, true, false, none, some, List, [], ◌∷◌, ◌++◌, if◌then◌else◌,
  ◌>>=◌, arith,
}
use qwswayland.Prelude.Int.{ℤ, pos, ◌+ℤ◌}
use qwswayland.Seat.{SeatWindow, PointerState, XkbCommon, Seat, SeatEvent, mouse}
use qwswayland.Seat.Pointer.{
  Button, zeroed, qt_button, focus_pressed, pointer_report, pointer_enter, pointer_motion,
  pointer_button, pointer_axis,
}

module _ (xkb : XkbCommon) (heap : ℕ → SeatWindow) (fixed_to_int wheel_delta : ℤ → ℤ) where
  pub enter_at_origin :
      (s : Seat xkb) (serial win : ℕ) (sx sy time : ℤ)
      → (heap win).x +ℤ fixed_to_int sx ≡ pos 0
      → (heap win).y +ℤ fixed_to_int sy ≡ pos 0
      → pointer_enter xkb heap fixed_to_int s serial (some win) sx sy time
        ≡ some (record s { pointer = zeroed win serial }, [])
  unfolding pointer_enter
  enter_at_origin s serial win sx sy time ex ey = rw (ex, ey) refl

  click_reports :
      (s : Seat xkb) (win serial : ℕ) (button : Button) (pressed : Bool) (time : ℤ)
      → s.pointer.win ≡ some win
      → let flags = (if pressed then qt_button button else 0) in
        (s' : Seat xkb) × (es : List SeatEvent) × (pointer_button xkb heap fixed_to_int s serial
            button pressed time
          ≡ some (s', es ++ mouse win s.pointer.gx s.pointer.gy flags (pos 0) time ∷ []))
        × (s'.pointer ≡ record s.pointer { button_state = flags; button_serial = serial })
  unfolding pointer_button
  click_reports s win serial button pressed time e =
      let (focused, fes) = focus_pressed xkb heap fixed_to_int pressed s.focused s.pointer.win in
      let p : PointerState = record s.pointer {
        button_state = (if pressed then qt_button button else 0);
        button_serial = serial;
      } in
      let s' : Seat xkb = record s { pointer = p; focused = focused; last_input_serial = serial } in
      (
        s',
        fes,
        ap
            (λ o.
              pointer_report xkb heap fixed_to_int p (pos 0) time o >>= λ es. some (s', fes ++ es))
            e,
        refl,
      )

  -- After any two presses in a window, the release of the second button reports to the window that
  -- no button is down.
  pub release_forgets :
      (s : Seat xkb) (win serial : ℕ) (held released : Button) (time : ℤ)
      → s.pointer.win ≡ some win
      → (s' : Seat xkb) × (es : List SeatEvent) × ((pointer_button xkb heap fixed_to_int s serial
              held true time
            >>= λ (s1, _).
                pointer_button xkb heap fixed_to_int s1 serial released true time >>= λ (s2, _).
                pointer_button xkb heap fixed_to_int s2 serial released false time)
          ≡ some (s', es ++ mouse win s.pointer.gx s.pointer.gy 0 (pos 0) time ∷ []))
        × (s'.pointer.button_state ≡ 0)
  release_forgets s win serial held released time e =
      let (s1, es1, r1, p1) = click_reports s win serial held true time e in
      let e1 = ap (λ p. p.win) p1 ∙ e in
      let (s2, es2, r2, p2) = click_reports s1 win serial released true time e1 in
      let e2 = ap (λ p. p.win) p2 ∙ e1 in
      let (s3, es3, r3, p3) = click_reports s2 win serial released false time e2 in
      let x = ap (λ p. p.gx) p2 ∙ ap (λ p. p.gx) p1 in
      let y = ap (λ p. p.gy) p2 ∙ ap (λ p. p.gy) p1 in
      (
        s3,
        es3,
        rw (r1, r2) (r3 ∙ ap₂ (λ a b. some (s3, es3 ++ mouse win a b 0 (pos 0) time ∷ [])) x y),
        ap (λ p. p.button_state) p3,
      )

  pub outside_faults :
      (s : Seat xkb) (serial : ℕ) (button : Button) (pressed : Bool) (sx sy value time : ℤ)
      → s.pointer.win ≡ none
      → (pointer_button xkb heap fixed_to_int s serial button pressed time ≡ none)
        × (pointer_axis xkb heap fixed_to_int wheel_delta s true value time ≡ none)
        × (pointer_motion xkb heap fixed_to_int s sx sy time ≡ none)
  unfolding pointer_button pointer_axis pointer_motion
  outside_faults s serial button pressed sx sy value time e =
      (ground (arith, e), ground (arith, e), ground (arith, e))
