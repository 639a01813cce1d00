-- ===== src/Focus.antt =====
-- The focused window: qwswl_window_set_focus and the start of qwswl_destroy_window in
-- proxy/window.c, xdg_toplevel_configure there, and qwswl_emit_focus_event in proxy/proxy.c. A window
-- is given by its address, `none` is no focused window.
pub mod Seen
use qwswayland.Prelude.{
  ℕ, Bool, true, false, not, ◌&&◌, Option, none, some, List, [], ◌∷◌, ◌==◌, if◌then◌else◌,
}
use qwswayland.Prelude.Int.{ℤ, pos, eqb_ℤ}

-- QWS_EVT_FOCUS with QWS_FOCUS_GAIN or QWS_FOCUS_LOSE, for a window. It is written to the window's
-- client (`win->client`) and to no other.
pub data FocusEvent : Type 0 where
  gain : ℕ → FocusEvent
  lose : ℕ → FocusEvent

abbrev pub is_focused : Option ℕ → ℕ → Bool
is_focused none win = false
is_focused (some f) win = f == win

abbrev pub qwswl_emit_focus_event : ℕ → Bool → List FocusEvent
qwswl_emit_focus_event win true = gain win ∷ []
qwswl_emit_focus_event win false = lose win ∷ []

-- The focused window afterwards and the event; `xdg` tells whether the window has an xdg_toplevel.
unfoldable pub qwswl_window_set_focus :
    Option ℕ → ℕ → Bool → Bool → Bool → Option ℕ × List FocusEvent
qwswl_window_set_focus state win xdg focused from_seat =
    if from_seat && (not focused && xdg)
    then (state, [])
    else if focused
    then (if is_focused state win then (state, []) else (some win, qwswl_emit_focus_event win true))
    else (if not (is_focused state win)
        then (state, [])
        else (none, qwswl_emit_focus_event win false))

-- The states that the compositor sends, XDG_TOPLEVEL_STATE_ACTIVATED among them or not.
unfoldable pub is_activated : ℕ → List ℕ → Bool
is_activated activated [] = false
is_activated activated (s ∷ states) =
    let further = is_activated activated states in if s == activated then true else further

-- `none` is the assertion that the compositor leaves the size to the client.
unfoldable pub xdg_toplevel_configure :
    ℕ → Option ℕ → ℕ → ℤ → ℤ → List ℕ → Option (Option ℕ × List FocusEvent)
unfolding qwswl_window_set_focus is_activated
xdg_toplevel_configure activated state win width height states =
    if eqb_ℤ width (pos 0) && eqb_ℤ height (pos 0)
    then some (qwswl_window_set_focus state win true (is_activated activated states) false)
    else none

-- A destroyed window is focused no longer, without an event.
unfoldable pub forget_destroyed : Option ℕ → ℕ → Option ℕ
forget_destroyed state win = if is_focused state win then none else state
