-- ===== src/Dispatch/Altitude.antt =====
-- QWS_CMD_CHANGE_ALTITUDE in qwswl_dispatch_command of proxy/proxy.c. The windows behind pointers are
-- read in the client's stack; a parent that is not in it counts as none.
-- `none` is an assertion that fails.
pub mod Room
pub mod Found
pub mod Sent
use qwswayland.Prelude.{
  ℕ, Bool, true, ◌&&◌, ◌||◌, Option, none, some, List, [], ◌∷◌, ◌++◌, if◌then◌else◌, ◌==◌, ◌>>=◌,
}
use qwswayland.Prelude.Int.{ℤ, pos, negsuc, eqb_ℤ, ltb_ℤ}
use qwswayland.HashMap.{HashMap}
use qwswayland.Rect.{Rect}
use qwswayland.Client.{
  Window, Request, qwswl_stack_raise_window, qwswl_stack_lower_window, qwswl_reorder_toplevels,
  qwswl_reorder_subsurfaces,
}
use qwswayland.Client.Regions.{RegionEvent, qwswl_update_regions}
use qwswayland.Client.Windows.{Present, Client, qwswl_find_or_allocate_window}

-- qws_altitude_t
abbrev pub altitude_lower : ℤ
altitude_lower = negsuc 0

abbrev pub altitude_stays_on_top : ℤ
altitude_stays_on_top = pos 1

-- The window object behind a pointer.
unfoldable pub window_at : ℕ → List Window → Option Window
window_at address [] = none
window_at address (w ∷ ws) = if w.address == address then some w else window_at address ws

-- `win->on_top = true` through the pointer.
unfoldable pub set_on_top : ℕ → List Window → List Window
set_on_top address [] = []
set_on_top address (w ∷ ws) =
    let rest = set_on_top address ws in
    if w.address == address then record w { on_top = true } ∷ ws else w ∷ rest

abbrev pub parent_of : Option ℕ → List Window → Option Window
parent_of none stack = none
parent_of (some address) stack = window_at address stack

-- The stack that the command leaves, with the requests and the region events.
pub record Changed : Type 0 where
  pub stack : List Window
  pub requests : List Request
  pub events : List RegionEvent

module _ (region_subtract : List Rect → List Rect → List Rect) (malloc_ok realloc_ok : Bool)
    (screen_width screen_height : ℤ) (uninitialised : Bool) where
  abbrev pub updated : List Window → List Request → Window → Changed
  updated stack requests win =
      let (after, events) =
        qwswl_update_regions region_subtract malloc_ok realloc_ok screen_width screen_height
          uninitialised (some win) stack in
      record { stack = after; requests = requests; events = events }

  -- From the raise or lower on, for the window object.
  abbrev pub moved : ℤ → List Window → Option Window → Option Changed
  moved altitude stack none = some (record { stack = stack; requests = []; events = [] })
  moved altitude stack (some win) =
      let stack' =
        (if eqb_ℤ altitude altitude_lower
          then qwswl_stack_lower_window stack win
          else qwswl_stack_raise_window stack win) in
      qwswl_reorder_toplevels stack' >>= λ raises.
      qwswl_reorder_subsurfaces stack' (parent_of win.parent stack') >>= λ placed.
      some (updated stack' (raises ++ placed) win)

  module _ (windows : HashMap ℕ) (interests : HashMap Present) where
    -- From the test of the altitude on, for the window's address.
    abbrev pub altered :
        Client windows interests → ℕ → ℤ → Bool → Option (Client windows interests × Changed)
    altered cl address altitude is_fixed =
        let stack =
          (if is_fixed && eqb_ℤ altitude altitude_stays_on_top
            then set_on_top address cl.window_stack
            else cl.window_stack) in
        (if ltb_ℤ altitude (negsuc 0) || ltb_ℤ (pos 1) altitude
          then some (record { stack = cl.window_stack; requests = []; events = [] })
          else moved altitude stack (window_at address stack))
        >>= λ changed. some (record cl { window_stack = changed.stack }, changed)

    unfoldable pub change_altitude :
        Client windows interests → ℕ → ℤ → ℤ → Bool → Option (Client windows interests × Changed)
    unfolding qwswl_find_or_allocate_window set_on_top window_at qwswl_update_regions
        qwswl_stack_raise_window qwswl_stack_lower_window qwswl_reorder_toplevels
        qwswl_reorder_subsurfaces
    change_altitude cl fresh window altitude is_fixed =
        qwswl_find_or_allocate_window windows interests cl fresh window >>= λ found.
        altered found.1 found.0 altitude is_fixed
