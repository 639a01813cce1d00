-- ===== src/Seat/Keyboard/Held.antt =====
-- The repeated keys of proxy/seat.c, over all that the compositor reports.
use qwswayland.Prelude.{
  ℕ, ◌≡◌, refl, sym, ap, subst, ◌∙◌, true, false, Option, none, some, List, [], ◌∷◌, ◌==◌, ◌>>=◌,
  Option-cases, inl, inr, none-ne-some, some-inj,
}
use qwswayland.Seat.Keys.{Keysym}
use qwswayland.Seat.{SeatWindow, XkbCommon, Seat, Timer, SeatEvent, key}
use qwswayland.Seat.Keyboard.{qwswl_xkb_modifiers, qwswl_keyboard_repeat_tick}
use qwswayland.Seat.Keyboard.Repeat.{
  Note, repeated, KeyInput, holds, held_after, entered, keyboard_step, OnlyHeld, Repeats,
}
use qwswayland.Seat.Keyboard.Steps.{step_lem, tick_lem}

-- The keys that are held after inputs and what each of them sent.
abbrev pub held_after_all : List Note → List KeyInput → List (List SeatEvent) → List Note
held_after_all held [] sent = held
held_after_all held (i ∷ inputs) [] = held
held_after_all held (i ∷ inputs) (es ∷ sent) = held_after_all (held_after held i es) inputs sent

-- The window that has the keyboard after inputs, if they can come in this order.
abbrev pub entered_all : Option ℕ → List KeyInput → Option (Option ℕ)
entered_all inside [] = some inside
entered_all inside (i ∷ inputs) = entered inside i >>= λ o. entered_all o inputs

module _ (xkb : XkbCommon) (heap : ℕ → SeatWindow) where
  -- The seat after inputs and what each of them sent.
  unfoldable pub keyboard_run : Seat xkb → List KeyInput → Option (Seat xkb × List (List SeatEvent))
  keyboard_run s [] = some (s, [])
  keyboard_run s (i ∷ inputs) = keyboard_step xkb heap s i >>= λ (s', es).
      keyboard_run s' inputs >>= λ (s'', sent). some (s'', es ∷ sent)

  -- What a tick does while the timer is armed.
  abbrev pub TicksHeld : Option Timer → Option ℕ → List Note → Seat xkb → Type 0
  TicksHeld none inside held s = Unit
  TicksHeld (some t) inside held s =
      (win : ℕ) × (n : Note) × (inside ≡ some win)
      × (holds held n ≡ true)
      × (qwswl_keyboard_repeat_tick xkb heap s
          ≡ some (
            s,
            key win n.unicode n.qt_key (qwswl_xkb_modifiers xkb heap s.kbd.xkb_state) true true
                ∷ [],
          ))

  ticks :
      (s : Seat xkb) (timer : Option Timer) (inside : Option ℕ) (held : List Note)
      → s.kbd.win ≡ inside
      → OnlyHeld xkb heap timer inside (repeated xkb heap s.kbd) held
      → TicksHeld timer inside held s
  ticks s none inside held w h = tt
  ticks s (some t) none held w h = absurd h
  ticks s (some t) (some win) held w h =
      (win, repeated xkb heap s.kbd, refl, h, tick_lem xkb heap s win w)

  module _ (nonzero : (k : Keysym) → (xkb.keysym k == 0) ≡ false) where
    run_Repeats :
        (s : Seat xkb) (inside after : Option ℕ) (held : List Note) (inputs : List KeyInput)
        → Repeats xkb heap inside held s.kbd
        → entered_all inside inputs ≡ some after
        → (s' : Seat xkb) × (sent : List (List SeatEvent)) × (keyboard_run s inputs
            ≡ some (s', sent))
          × Repeats xkb heap after (held_after_all held inputs sent) s'.kbd
    unfolding keyboard_run
    run_Repeats s inside after held [] r e =
        (s, [], refl, subst (λ o. Repeats xkb heap o held s.kbd) (some-inj e) r)
    run_Repeats s inside after held (i ∷ inputs) r e = elim (Option-cases (entered inside i)) [
      | inl stop ↦ absurd (none-ne-some (ap (λ o. o >>= λ n. entered_all n inputs) (sym stop) ∙ e))
      | inr (now, go) ↦
          let (s', es, ran, r') = step_lem xkb heap nonzero s inside now held i r go in
          let rest = ap (λ o. o >>= λ n. entered_all n inputs) (sym go) ∙ e in
          let (s'', sent, ran', r'') =
            run_Repeats s' now after (held_after held i es) inputs r' rest in
          (s'', es ∷ sent, rw (ran, ran') refl, r'')
    ]

    -- If no keysym is zero, then from a state with the timer disarmed, reports of the keyboard and
    -- expirations in an order that Wayland allows are all handled, and while the timer is armed
    -- afterwards, a window has the keyboard, and a tick sends that window a repeat with the
    -- character and the key that the press of a held key has sent, where the held keys are those
    -- that were pressed since the window got the keyboard and are not released, and at the start
    -- any that are given.
    pub repeats_held :
        (s : Seat xkb) (held : List Note) (after : Option ℕ) (inputs : List KeyInput)
        → s.kbd.timer ≡ none
        → entered_all s.kbd.win inputs ≡ some after
        → (s' : Seat xkb) × (sent : List (List SeatEvent)) × (keyboard_run s inputs
            ≡ some (s', sent))
          × TicksHeld s'.kbd.timer after (held_after_all held inputs sent) s'
    repeats_held s held after inputs idle e =
        let start : Repeats xkb heap s.kbd.win held s.kbd = record {
          win_is = refl;
          only_held =
              subst (λ t. OnlyHeld xkb heap t s.kbd.win (repeated xkb heap s.kbd) held) (sym idle)
                tt;
        } in
        let (s', sent, ran, r) = run_Repeats s s.kbd.win after held inputs start e in
        (
          s',
          sent,
          ran,
          ticks s' s'.kbd.timer after (held_after_all held inputs sent) r.win_is r.only_held,
        )
