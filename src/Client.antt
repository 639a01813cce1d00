-- ===== src/Client.antt =====
-- The per-client state of the proxy: proxy/client.c and proxy/client.h, with the fields of
-- qwswl_window_t (proxy/window.h) that it reads. A pointer to a window is its `address`; the window
-- objects of a client live in its stack, and the window map leads from an id to an address. A
-- Wayland object is a number, `none` for NULL. The trace output is not modelled.
pub mod Stack
pub mod Order
pub mod Reorder
pub mod Regions
pub mod Windows
use qwswayland.Prelude.{
  ℕ, zero, suc, ◌+◌, ◌*◌, ◌≡◌, refl, Bool, true, false, not, ◌&&◌, ◌||◌, Option, none, some, List,
  [], ◌∷◌, ◌++◌, ◌==◌, if◌then◌else◌, ltb, ◌>>=◌, length, arith,
}
use qwswayland.Prelude.Int.{ℤ, pos, negsuc, ◌+ℤ◌, to_word}
use qwswayland.HashMap.{HashMap}
use qwswayland.Props.{prop_key, is_some}
use qwswayland.Rect.{Rect}

-- qwswl_window_t
pub record Window : Type 0 where
  pub address : ℕ
  pub qws_id : ℤ
  pub on_top : Bool
  pub opacity : ℕ
  pub win_flags : ℤ
  pub geometry : List Rect
  pub visible_rects : List Rect
  pub parent : Option ℕ
  pub wl_surface : Option ℕ
  pub wl_subsurface : Option ℕ
  pub xdg_surface : Option ℕ
  pub zqt_shell_surface : Option ℕ

-- The initial state of a window; the allocator chooses the address.
unfoldable pub qwswl_allocate_window_with_id : ℕ → ℤ → Window
qwswl_allocate_window_with_id address qws_id = record {
  address = address;
  qws_id = qws_id;
  on_top = false;
  opacity = 255;
  win_flags = negsuc 0;
  geometry = [];
  visible_rects = [];
  parent = none;
  wl_surface = none;
  wl_subsurface = none;
  xdg_surface = none;
  zqt_shell_surface = none;
}

unfoldable pub qwswl_win_is_toplevel : Window → Bool
qwswl_win_is_toplevel w = is_some w.xdg_surface || is_some w.zqt_shell_surface

-- The loop that inserts before the first window that is not on top, or at the back.
unfoldable pub insert_at_boundary : List Window → Window → List Window
insert_at_boundary [] win = win ∷ []
insert_at_boundary (it ∷ rest) win =
    let further = insert_at_boundary rest win in
    if not it.on_top then win ∷ it ∷ rest else it ∷ further

unfoldable pub push_window_to_stack : List Window → Window → List Window
unfolding insert_at_boundary
push_window_to_stack stack win = insert_at_boundary stack win

-- The loop that erases the first entry with the window's address, and stops there.
unfoldable pub erase_from_stack : ℕ → List Window → List Window
erase_from_stack address [] = []
erase_from_stack address (it ∷ rest) =
    let further = erase_from_stack address rest in
    if it.address == address then rest else it ∷ further

unfoldable pub qwswl_stack_raise_window : List Window → Window → List Window
unfolding insert_at_boundary erase_from_stack
qwswl_stack_raise_window stack win =
    let rest = erase_from_stack win.address stack in
    if win.on_top then win ∷ rest else insert_at_boundary rest win

unfoldable pub qwswl_stack_lower_window : List Window → Window → List Window
unfolding erase_from_stack
qwswl_stack_lower_window stack win = erase_from_stack win.address stack ++ (win ∷ [])

-- `next` is the loop's flag: the window has been passed.
unfoldable pub toplevel_below : Bool → List Window → ℕ → Option Window
unfolding qwswl_win_is_toplevel
toplevel_below next [] address = none
toplevel_below next (it ∷ rest) address =
    let further = toplevel_below (next || (it.address == address)) rest address in
    if next && qwswl_win_is_toplevel it then some it else further

unfoldable pub qwswl_client_window_get_first_toplevel_below : List Window → ℕ → Option Window
unfolding toplevel_below
qwswl_client_window_get_first_toplevel_below stack address = toplevel_below false stack address

-- The requests that reordering sends to the compositor.
pub data Request : Type 0 where
  place_above : ℕ → ℕ → Request
  raise : ℕ → Request

abbrev pub is_child_of : ℕ → Option ℕ → Bool
is_child_of address none = false
is_child_of address (some p) = p == address

-- Each child of the parent with a subsurface, topmost first: the subsurface, and the surface that the
-- next one goes above.
abbrev pub child_entry : ℕ → Window → Option (ℕ × Option ℕ)
child_entry parent w = elim w.wl_subsurface [
  | none ↦ none
  | some sub ↦ if is_child_of parent w.parent then some (sub, w.wl_surface) else none
]

abbrev pub cons_some {ℓ} : {A : Type ℓ} → Option A → List A → List A
cons_some none xs = xs
cons_some (some x) xs = x ∷ xs

-- WINDOW_MAX_CHILDREN, the length of the arrays of children and of toplevels.
abbrev pub window_max_children : ℕ
window_max_children = 128

abbrev pub count_of {ℓ} : {A : Type ℓ} → Option A → ℕ
count_of none = 0
count_of (some x) = 1

-- `n` children have been found so far; `none` is the assertion, which every window meets.
unfoldable pub collect_children : ℕ → ℕ → List Window → Option (List (ℕ × Option ℕ))
collect_children parent n [] = some []
collect_children parent n (w ∷ rest) =
    let child = child_entry parent w in
    let further = collect_children parent (n + count_of child) rest in
    if ltb n window_max_children then (further >>= λ cs. some (cons_some child cs)) else none

abbrev pub surface_or : ℕ → Option ℕ → ℕ
surface_or d none = d
surface_or d (some s) = s

-- The loop from the bottommost child up; a window with a subsurface has a surface.
abbrev pub place_chain : ℕ → List (ℕ × Option ℕ) → ℕ × List Request
place_chain below [] = (below, [])
place_chain below ((sub, surface) ∷ above) =
    let (b, sent) = place_chain below above in
    (surface_or b surface, sent ++ (place_above sub b ∷ []))

unfoldable pub qwswl_reorder_subsurfaces : List Window → Option Window → Option (List Request)
unfolding collect_children
qwswl_reorder_subsurfaces stack none = some []
qwswl_reorder_subsurfaces stack (some parent) = elim parent.wl_surface [
  | none ↦ some []
  | some surface ↦ collect_children parent.address 0 stack >>= λ cs. some (place_chain surface cs).1
]

-- The shell surfaces in stack order, and the raises from the last to the first; the assertion is that
-- there is room for one more.
unfoldable pub collect_toplevels : ℕ → List Window → Option (List ℕ)
collect_toplevels n [] = some []
collect_toplevels n (w ∷ rest) =
    let toplevel = w.zqt_shell_surface in
    let further = collect_toplevels (n + count_of toplevel) rest in
    if not (is_some toplevel) || ltb n window_max_children
    then (further >>= λ ss. some (cons_some toplevel ss))
    else none

abbrev pub raise_backwards : List ℕ → List Request
raise_backwards [] = []
raise_backwards (s ∷ below) = raise_backwards below ++ (raise s ∷ [])

unfoldable pub qwswl_reorder_toplevels : List Window → Option (List Request)
unfolding collect_toplevels
qwswl_reorder_toplevels stack = collect_toplevels 0 stack >>= λ ss. some (raise_backwards ss)
