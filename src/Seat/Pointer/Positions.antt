-- ===== src/Seat/Pointer/Positions.antt =====
-- The pointer's position as the clients know it, through the mouse events and the shared memory:
-- proxy/seat.c.
use qwswayland.Prelude.{
  ℕ, ◌≡◌, refl, sym, ap, subst, ◌∙◌, ◌&&◌, Option, none, some, List, [], ◌∷◌, ◌++◌, if◌then◌else◌,
  ◌>>=◌, Bool-cases, Option-cases, inl, inr, none-ne-some, some-inj,
}
use qwswayland.Prelude.Int.{ℤ, pos, ◌+ℤ◌, eqb_ℤ}
use qwswayland.Seat.{SeatWindow, XkbCommon, Seat, Handled, SeatEvent}
use qwswayland.Seat.Pointer.{pointer_leave}
use qwswayland.Seat.Pointer.Inputs.{
  PointerInput, enters, leaves, moves, clicks, scrolls, seen, seen-append, pointer_step, Agrees,
  entered, Stepped, enter_steps, motion_steps, click_steps, scroll_steps,
}

module _ (xkb : XkbCommon) (fixed_to_int wheel_delta : ℤ → ℤ) where
  step_lem :
      (heap : ℕ → SeatWindow) (inside : Option ℕ) (s : Seat xkb) (view : ℤ × ℤ)
      (input : PointerInput) (after : Option ℕ)
      → Agrees xkb fixed_to_int wheel_delta inside s view
      → entered xkb fixed_to_int wheel_delta heap inside input ≡ some after
      → Stepped xkb fixed_to_int wheel_delta heap s view input after
  unfolding pointer_leave
  step_lem heap inside s view (enters serial none sx sy time) after a e = absurd (none-ne-some e)
  step_lem heap inside s view (enters serial (some win) sx sy time) after a e =
      elim (Bool-cases (
        eqb_ℤ ((heap win).x +ℤ fixed_to_int sx) (pos 0)
        && eqb_ℤ ((heap win).y +ℤ fixed_to_int sy) (pos 0))) [
          | inl origin ↦
              absurd (none-ne-some (ap (λ b. if b then none else some (some win)) (sym origin) ∙ e))
          | inr away ↦
              subst
                (Stepped xkb fixed_to_int wheel_delta heap s view
                  (enters serial (some win) sx sy time))
                (some-inj (ap (λ b. if b then none else some (some win)) (sym away) ∙ e))
                (enter_steps xkb fixed_to_int wheel_delta heap s view serial win sx sy time away)
        ]
  step_lem heap inside s view leaves after a e =
      subst (Stepped xkb fixed_to_int wheel_delta heap s view leaves) (some-inj e)
        (record s { pointer = record s.pointer { win = none } }, [], refl, refl)
  step_lem heap none s view (moves sx sy time) after a e = absurd (none-ne-some e)
  step_lem heap (some win) s view (moves sx sy time) after a e =
      subst (Stepped xkb fixed_to_int wheel_delta heap s view (moves sx sy time)) (some-inj e)
        (motion_steps xkb fixed_to_int wheel_delta heap s view win sx sy time a)
  step_lem heap none s view (clicks serial button pressed time) after a e = absurd (none-ne-some e)
  step_lem heap (some win) s view (clicks serial button pressed time) after a e =
      subst (Stepped xkb fixed_to_int wheel_delta heap s view (clicks serial button pressed time))
        (some-inj e)
        (click_steps xkb fixed_to_int wheel_delta heap s view win serial button pressed time a)
  step_lem heap none s view (scrolls vertical value time) after a e = absurd (none-ne-some e)
  step_lem heap (some win) s view (scrolls vertical value time) after a e =
      subst (Stepped xkb fixed_to_int wheel_delta heap s view (scrolls vertical value time))
        (some-inj e)
        (scroll_steps xkb fixed_to_int wheel_delta heap s view win vertical value time a)

  -- All inputs, each with the windows of its time.
  unfoldable pub pointer_run : Seat xkb → List ((ℕ → SeatWindow) × PointerInput) → Handled xkb
  pointer_run s [] = some (s, [])
  pointer_run s ((heap, input) ∷ inputs) =
      pointer_step xkb fixed_to_int wheel_delta heap s input >>= λ (s', es).
      pointer_run s' inputs >>= λ (s'', fs). some (s'', es ++ fs)

  -- The window that the pointer is in after inputs that come in an order that Wayland allows.
  abbrev pub entered_all : Option ℕ → List ((ℕ → SeatWindow) × PointerInput) → Option (Option ℕ)
  entered_all inside [] = some inside
  entered_all inside ((heap, input) ∷ inputs) =
      entered xkb fixed_to_int wheel_delta heap inside input >>= λ o. entered_all o inputs

  -- However the windows move in between, reports of the pointer in an order that Wayland allows,
  -- none of them an entry at the global origin, are all handled, and afterwards the position in the
  -- pointer's state, the one in shared memory and the one in the last mouse event are the same
  -- while the pointer is in a window, and the state has that window.
  pub positions_agree :
      (s : Seat xkb) (view : ℤ × ℤ) (inside after : Option ℕ)
      (inputs : List ((ℕ → SeatWindow) × PointerInput))
      → Agrees xkb fixed_to_int wheel_delta inside s view
      → entered_all inside inputs ≡ some after
      → (s' : Seat xkb) × (es : List SeatEvent) × (pointer_run s inputs ≡ some (s', es))
        × Agrees xkb fixed_to_int wheel_delta after s' (seen view es)
  unfolding pointer_run
  positions_agree s view inside after [] a e =
      (s, [], refl, subst (λ o. Agrees xkb fixed_to_int wheel_delta o s view) (some-inj e) a)
  positions_agree s view inside after ((heap, input) ∷ inputs) a e =
      elim (Option-cases (entered xkb fixed_to_int wheel_delta heap inside input)) [
        | inl stop ↦
            absurd (none-ne-some (ap (λ o. o >>= λ i. entered_all i inputs) (sym stop) ∙ e))
        | inr (now, go) ↦
            let (s', es, ran, a') = step_lem heap inside s view input now a go in
            let rest = ap (λ o. o >>= λ i. entered_all i inputs) (sym go) ∙ e in
            let (s'', fs, ran', a'') = positions_agree s' (seen view es) now after inputs a' rest in
            (
              s'',
              es ++ fs,
              rw (ran, ran') refl,
              subst (Agrees xkb fixed_to_int wheel_delta after s'') (sym (seen-append view es fs))
                  a'',
            )
      ]
