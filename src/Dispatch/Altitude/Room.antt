-- ===== src/Dispatch/Altitude/Room.antt =====
-- The arrays of proxy/client.c have room for the windows of a short stack.
use qwswayland.Prelude.{
  ℕ, suc, ◌+◌, ◌≤◌, ◌≡◌, refl, ap, true, false, Option, none, some, List, [], ◌∷◌, ◌++◌, ◌==◌,
  lt→ltb, flatten, map, length, length-append, arith, Bool-cases, Option-cases, inl, inr,
}
use qwswayland.Client.{
  Window, Request, insert_at_boundary, erase_from_stack, qwswl_stack_raise_window,
  qwswl_stack_lower_window, child_entry, count_of, cons_some, collect_children, window_max_children,
  place_chain, raise_backwards, qwswl_reorder_subsurfaces, qwswl_reorder_toplevels,
}
use qwswayland.Client.Stack.{raise_if}
use qwswayland.Client.Reorder.{surfaces_of, collect_toplevels_lem}
use qwswayland.Dispatch.Altitude.{set_on_top}

-- The arrays have room for the windows of a short stack.
pub length-insert :
    (ws : List Window) (w : Window) → length (insert_at_boundary ws w) ≡ suc (length ws)
unfolding insert_at_boundary
length-insert [] w = refl
length-insert (v ∷ ws) w = elim (Bool-cases v.on_top) [
  | inl t ↦ rw t (ap suc (length-insert ws w))
  | inr t ↦ rw t refl
]

length-erase : (address : ℕ) (ws : List Window) → length (erase_from_stack address ws) ≤ length ws
unfolding erase_from_stack
length-erase address [] = omega arith
length-erase address (w ∷ ws) = elim (Bool-cases (w.address == address)) [
  | inl t ↦ rw t (omega arith)
  | inr t ↦ rw t (omega (arith, length-erase address ws))
]

pub length-set_on_top :
    (address : ℕ) (ws : List Window) → length (set_on_top address ws) ≡ length ws
unfolding set_on_top
length-set_on_top address [] = refl
length-set_on_top address (w ∷ ws) = elim (Bool-cases (w.address == address)) [
  | inl t ↦ rw t refl
  | inr t ↦ rw t (ap suc (length-set_on_top address ws))
]

pub length-raise :
    (ws : List Window) (w : Window) → length (qwswl_stack_raise_window ws w) ≤ suc (length ws)
length-raise ws w =
    let rest = erase_from_stack w.address ws in
    let fewer = length-erase w.address ws in
    elim (Bool-cases w.on_top) [
      | inl t ↦ omega (arith, fewer, ap length (raise_if ws w true t))
      | inr t ↦ omega (arith, fewer, ap length (raise_if ws w false t), length-insert rest w)
    ]

pub length-lower :
    (ws : List Window) (w : Window) → length (qwswl_stack_lower_window ws w) ≤ suc (length ws)
unfolding qwswl_stack_lower_window
length-lower ws w =
    omega (arith, length-erase w.address ws, length-append (erase_from_stack w.address ws) (w ∷ []))

count_of-le : (parent : ℕ) (w : Window) → count_of (child_entry parent w) ≤ 1
count_of-le parent w = elim (Option-cases (child_entry parent w)) [
  | inl e ↦ rw e (omega arith)
  | inr (c, e) ↦ rw e (omega arith)
]

collect_children-total :
    (parent n : ℕ) (ws : List Window)
    → n + length ws ≤ window_max_children
    → (cs : List (ℕ × Option ℕ)) × (collect_children parent n ws ≡ some cs)
unfolding collect_children
collect_children-total parent n [] h = ([], refl)
collect_children-total parent n (w ∷ ws) h =
    let child = child_entry parent w in
    let (cs, e) =
      collect_children-total parent (n + count_of child) ws (omega (arith, count_of-le parent w)) in
    (cons_some child cs, rw (lt→ltb n window_max_children (omega arith), e) refl)

pub reorder_subsurfaces-total :
    (ws : List Window) (parent : Option Window)
    → length ws ≤ window_max_children
    → (sent : List Request) × (qwswl_reorder_subsurfaces ws parent ≡ some sent)
unfolding qwswl_reorder_subsurfaces
reorder_subsurfaces-total ws none h = ([], refl)
reorder_subsurfaces-total ws (some parent) h = elim (Option-cases parent.wl_surface) [
  | inl e ↦ ([], rw e refl)
  | inr (surface, e) ↦
      let (cs, run) = collect_children-total parent.address 0 ws (omega arith) in
      ((place_chain surface cs).1, rw (e, run) refl)
]

at_most_one :
    (toplevel : Option ℕ) (ss : List ℕ)
    → length ((elim toplevel [ none ↦ [] | some s ↦ s ∷ [] ]) ++ ss) ≤ suc (length ss)
at_most_one none ss = omega arith
at_most_one (some s) ss = omega arith

length-surfaces_of : (ws : List Window) → length (surfaces_of ws) ≤ length ws
unfolding flatten map
length-surfaces_of [] = omega arith
length-surfaces_of (w ∷ ws) =
    omega (arith, at_most_one w.zqt_shell_surface (surfaces_of ws), length-surfaces_of ws)

pub reorder_toplevels-total :
    (ws : List Window)
    → length ws ≤ window_max_children
    → (sent : List Request) × (qwswl_reorder_toplevels ws ≡ some sent)
unfolding qwswl_reorder_toplevels
reorder_toplevels-total ws h = (
  raise_backwards (surfaces_of ws),
  rw (collect_toplevels_lem 0 ws (omega (arith, length-surfaces_of ws))) refl,
)
