-- ===== src/Seat/Keyboard/Repeat.antt =====
-- The key repeat of proxy/seat.c against the keys that are held.
use qwswayland.Prelude.{
  ℕ, zero, suc, ◌/◌, ◌≡◌, refl, Bool, true, false, ◌&&◌, ◌||◌, Option, none, some, List, [], ◌∷◌,
  ◌==◌, if◌then◌else◌, ◌>>=◌, arith, Bool-cases, inl, inr, ==_iff,
}
use qwswayland.Prelude.Int.{ℤ, pos, negsuc, ltb_ℤ, pos_part}
use qwswayland.Seat.{SeatWindow, XkbCommon, KeyboardState, Seat, Handled, Timer, SeatEvent, key}
use qwswayland.Seat.Keyboard.{
  keycode, keyboard_enter, keyboard_leave, keyboard_key, keyboard_modifiers, keyboard_repeat_info,
  qwswl_keyboard_repeat_tick, update_repeat, timerfd_settime, kbd_repeat_disarm,
}

-- What the compositor reports, and the expiration of the timer.
pub data KeyInput : Type 0 where
  enters : ℕ → List ℕ → KeyInput
  leaves : Option ℕ → KeyInput
  types : ℕ → ℕ → Bool → KeyInput
  modifies : ℕ → ℕ → ℕ → ℕ → KeyInput
  tunes : ℤ → ℤ → KeyInput
  expires : KeyInput

-- A key that was pressed in the window that has the keyboard, with what the press sent.
pub record Note : Type 0 where
  pub code : ℕ
  pub unicode : ℕ
  pub qt_key : ℕ

abbrev pub same_note : Note → Note → Bool
same_note n m = (n.code == m.code) && ((n.unicode == m.unicode) && (n.qt_key == m.qt_key))

abbrev pub holds : List Note → Note → Bool
holds [] n = false
holds (j ∷ js) n = same_note j n || holds js n

abbrev pub release : ℕ → List Note → List Note
release c [] = []
release c (j ∷ js) = let rest = release c js in if j.code == c then rest else j ∷ rest

abbrev pub pressed : ℕ → List SeatEvent → List Note → List Note
pressed c (key win u q modifiers is_press auto_repeat ∷ es) held =
    record { code = c; unicode = u; qt_key = q } ∷ held
pressed c es held = held

-- The keys that are held after an input and the events that it sent.
abbrev pub held_after : List Note → KeyInput → List SeatEvent → List Note
held_after held (enters win keys) es = []
held_after held (leaves surface) es = []
held_after held (types serial c true) es = pressed c es held
held_after held (types serial c false) es = release c held
held_after held _ es = held

-- The window that has the keyboard afterwards, if the input can come then.
abbrev pub entered : Option ℕ → KeyInput → Option (Option ℕ)
entered none (enters win keys) = some (some win)
entered (some old) (enters win keys) = none
entered inside (leaves surface) = some none
entered none (types serial code pressed) = none
entered (some win) (types serial code pressed) = some (some win)
entered inside (modifies depressed latched locked group) = some inside
entered inside (tunes rate delay) = some inside
entered inside expires = some inside

holds-release :
    (c : ℕ) (n : Note) (held : List Note)
    → holds held n ≡ true
    → (c == n.code) ≡ false
    → holds (release c held) n ≡ true
holds-release c n [] h e = h
holds-release c n (j ∷ held) h e = ground (arith, holds-release c n held)

same_self : (n : Note) → same_note n n ≡ true
same_self n =
    rw
      (
        (==_iff n.code n.code).1 refl,
        (==_iff n.unicode n.unicode).1 refl,
        (==_iff n.qt_key n.qt_key).1 refl,
      )
      refl

module _ (xkb : XkbCommon) (heap : ℕ → SeatWindow) where
  -- A timer without an interval expires once.
  abbrev pub expired : Seat xkb → Option Timer → Handled xkb
  expired s none = some (s, [])
  expired s (some t) = qwswl_keyboard_repeat_tick xkb heap s >>= λ (s', es).
      some (
        record s' { kbd = record s'.kbd { timer = (if t.interval == 0 then none else some t) } },
        es,
      )

  abbrev pub keyboard_step : Seat xkb → KeyInput → Handled xkb
  keyboard_step s (enters win keys) = keyboard_enter xkb heap s (some win) keys
  keyboard_step s (leaves surface) = keyboard_leave xkb heap s surface
  keyboard_step s (types serial code pressed) = keyboard_key xkb heap s serial code pressed
  keyboard_step s (modifies depressed latched locked group) =
      keyboard_modifiers xkb heap s depressed latched locked group
  keyboard_step s (tunes rate delay) = keyboard_repeat_info xkb heap s rate delay
  keyboard_step s expires = expired s s.kbd.timer

  -- What the timer repeats.
  abbrev pub repeated : KeyboardState xkb → Note
  repeated k = record { code = k.repeat_key; unicode = k.repeat_unicode; qt_key = k.repeat_qt_key }

  -- An armed timer repeats a held key, in a window.
  abbrev pub OnlyHeld : Option Timer → Option ℕ → Note → List Note → Type 0
  OnlyHeld none inside n held = Unit
  OnlyHeld (some t) none n held = ⊥
  OnlyHeld (some t) (some win) n held = holds held n ≡ true

  pub record Repeats (inside : Option ℕ) (held : List Note) (k : KeyboardState xkb) : Type 0 where
    pub win_is : k.win ≡ inside
    pub only_held : OnlyHeld k.timer inside (repeated k) held

  pub idle :
      (timer : Option Timer) (n : Note) (held : List Note)
      → OnlyHeld timer none n held
      → timer ≡ none
  idle none n held h = refl
  idle (some t) n held h = absurd h

  press_held :
      (timer : Option Timer) (win : ℕ) (n m : Note) (held : List Note)
      → OnlyHeld timer (some win) n held
      → OnlyHeld timer (some win) n (m ∷ held)
  press_held none win n m held h = tt
  press_held (some t) win n m held h = ground (arith, h)

  armed_held :
      (delay : ℤ) (interval : ℕ) (timer : Option Timer) (win : ℕ) (n : Note) (held : List Note)
      → OnlyHeld (timerfd_settime xkb heap delay interval timer) (some win) n (n ∷ held)
  unfolding timerfd_settime
  armed_held (pos zero) interval timer win n held = tt
  armed_held (pos (suc d)) interval timer win n held = rw (same_self n) refl
  armed_held (negsuc d) interval none win n held = tt
  armed_held (negsuc d) interval (some t) win n held = rw (same_self n) refl

  release_held :
      (timer : Option Timer) (win c : ℕ) (n : Note) (held : List Note)
      → (c == n.code) ≡ false
      → OnlyHeld timer (some win) n held
      → OnlyHeld timer (some win) n (release c held)
  release_held none win c n held e h = tt
  release_held (some t) win c n held e h = holds-release c n held h e

  pub update_repeat-Repeats :
      (k : KeyboardState xkb) (win c u q modifiers : ℕ) (is_press : Bool) (held : List Note)
      (serial : ℕ)
      → Repeats (some win) held k
      → Repeats
          (some win)
          (held_after held (types serial c is_press) (key win u q modifiers is_press false ∷ []))
          (update_repeat xkb heap k c u q is_press)
  unfolding update_repeat kbd_repeat_disarm
  update_repeat-Repeats k win c u q modifiers true held serial r =
      let n : Note = record { code = c; unicode = u; qt_key = q } in
      elim (Bool-cases (ltb_ℤ (pos 0) k.repeat_rate && xkb.key_repeats (keycode xkb heap c))) [
        | inl arms ↦ rw arms (record {
          win_is = r.win_is;
          only_held = armed_held k.repeat_delay (1000 / pos_part k.repeat_rate) k.timer win n held;
        })
        | inr stays ↦ rw stays (record {
          win_is = r.win_is;
          only_held = press_held k.timer win (repeated k) n held r.only_held;
        })
      ]
  update_repeat-Repeats k win c u q modifiers false held serial r =
      elim (Bool-cases (c == k.repeat_key)) [
        | inl same ↦ rw same (record { win_is = r.win_is; only_held = tt })
        | inr other ↦ rw other (record {
          win_is = r.win_is;
          only_held = release_held k.timer win c (repeated k) held other r.only_held;
        })
      ]
