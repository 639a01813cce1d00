-- ===== src/Client/Order.antt =====
-- The order of the window stack of proxy/client.c: what raising, lowering and the search below a
-- window make of it and find in it.
use qwswayland.Prelude.{
  ℕ, ◌≡◌, refl, sym, subst, ap, ◌∙◌, Bool, true, false, Option, none, some, List, [], ◌∷◌, ◌++◌,
  ◌==◌, if◌then◌else◌, Bool-cases, inl, inr, ==_iff,
}
use qwswayland.Client.{
  Window, insert_at_boundary, erase_from_stack, qwswl_stack_raise_window, qwswl_stack_lower_window,
  toplevel_below, qwswl_client_window_get_first_toplevel_below, qwswl_win_is_toplevel,
}
use qwswayland.Client.Stack.{
  NoneOnTop, IsZoned, Absent, IsDistinct, tail-IsZoned, tail-NoneOnTop, erase-IsZoned, raise_if,
  insert_if,
}

-- The windows other than the one at an address.
abbrev pub others : ℕ → List Window → List Window
others address [] = []
others address (w ∷ ws) = if w.address == address then others address ws else w ∷ others address ws

Absent-others : (address : ℕ) (ws : List Window) → Absent address ws → others address ws ≡ ws
Absent-others address [] h = refl
Absent-others address (w ∷ ws) (e, h) = rw e (ap (λ l. w ∷ l) (Absent-others address ws h))

pub distinct_erase :
    (address : ℕ) (ws : List Window)
    → IsDistinct ws
    → erase_from_stack address ws ≡ others address ws
unfolding erase_from_stack
distinct_erase address [] h = refl
distinct_erase address (w ∷ ws) (a, h) = elim (Bool-cases (w.address == address)) [
  | inl e ↦
      rw e (
        sym
          (Absent-others address ws (subst (λ i. Absent i ws) ((==_iff w.address address).0 e) a)))
  | inr e ↦ rw e (ap (λ l. w ∷ l) (distinct_erase address ws h))
]

others-insert :
    (ws : List Window) (w : Window)
    → others w.address (insert_at_boundary ws w) ≡ others w.address ws
unfolding insert_at_boundary
others-insert [] w = rw ((==_iff w.address w.address).1 refl) refl
others-insert (v ∷ ws) w = elim (Bool-cases v.on_top) [
  | inl t ↦ rw (t, others-insert ws w) refl
  | inr t ↦ rw (t, (==_iff w.address w.address).1 refl) refl
]

others-append :
    (address : ℕ) (front back : List Window)
    → others address (front ++ back) ≡ others address front ++ others address back
others-append address [] back = refl
others-append address (w ∷ front) back = elim (Bool-cases (w.address == address)) [
  | inl e ↦ rw e (others-append address front back)
  | inr e ↦ rw e (ap (λ l. w ∷ l) (others-append address front back))
]

abbrev pub AllOnTop : List Window → Type 0
AllOnTop [] = Unit
AllOnTop (w ∷ ws) = (w.on_top ≡ true) × AllOnTop ws

-- Where a window stands: directly before the windows that are not on top, and behind windows on top.
abbrev pub AtBoundary : List Window → Window → List Window → Type 0
AtBoundary ws w result =
    (front : List Window) × (back : List Window) × (result ≡ front ++ (w ∷ back))
    × AllOnTop front
    × NoneOnTop back
    × (front ++ back ≡ ws)

insert-AtBoundary :
    (ws : List Window) (w : Window) → IsZoned ws → AtBoundary ws w (insert_at_boundary ws w)
unfolding insert_at_boundary
insert-AtBoundary [] w h = ([], [], refl, tt, tt, refl)
insert-AtBoundary (v ∷ ws) w h = elim (Bool-cases v.on_top) [
  | inl t ↦
      let (front, back, e, all, none_left, split) =
        insert-AtBoundary ws w (tail-IsZoned v ws t h) in
      (
        v ∷ front,
        back,
        insert_if v ws w true t ∙ ap (λ l. v ∷ l) e,
        (t, all),
        none_left,
        ap (λ l. v ∷ l) split,
      )
  | inr t ↦ ([], v ∷ ws, insert_if v ws w false t, tt, (t, tail-NoneOnTop v ws t h), refl)
]

-- Raising a window of a stack with two zones and no repetition keeps the order of the others and
-- puts the window at the very front if it is on top, and otherwise between the windows on top and
-- the others.
pub raise_lem :
    (ws : List Window) (w : Window)
    → IsDistinct ws
    → IsZoned ws
    → let raised = qwswl_stack_raise_window ws w in
      (if w.on_top
        then raised ≡ w ∷ others w.address ws
        else AtBoundary (others w.address ws) w raised)
raise_lem ws w d h =
    let e = distinct_erase w.address ws d in
    let P = λ (b : Bool).
      (if b
        then qwswl_stack_raise_window ws w ≡ w ∷ others w.address ws
        else AtBoundary (others w.address ws) w (qwswl_stack_raise_window ws w)) in
    elim (Bool-cases w.on_top) [
      | inl t ↦ subst P (sym t) (raise_if ws w true t ∙ ap (λ l. w ∷ l) e)
      | inr t ↦ subst P (sym t) (
          subst (AtBoundary (others w.address ws) w)
            (sym (raise_if ws w false t ∙ ap (λ l. insert_at_boundary l w) e))
            (insert-AtBoundary (others w.address ws) w
              (subst IsZoned e (erase-IsZoned w.address ws h))))
    ]

none_then :
    (ws : List Window) (w : Window) → NoneOnTop ws → w.on_top ≡ false → NoneOnTop (ws ++ (w ∷ []))
none_then [] w h e = (e, tt)
none_then (v ∷ ws) w (a, h) e = (a, none_then ws w h e)

IsZoned-then :
    (ws : List Window) (w : Window) → IsZoned ws → w.on_top ≡ false → IsZoned (ws ++ (w ∷ []))
IsZoned-then [] w h e = rw e tt
IsZoned-then (v ∷ ws) w h e = elim (Bool-cases v.on_top) [
  | inl t ↦ rw t (IsZoned-then ws w (tail-IsZoned v ws t h) e)
  | inr t ↦ rw t (none_then ws w (tail-NoneOnTop v ws t h) e)
]

-- Lowering a window that is not on top, in a stack with two zones and no repetition, moves it to
-- the very back, keeps the order of the others and keeps the zones apart.
pub lower_lem :
    (ws : List Window) (w : Window)
    → IsDistinct ws
    → IsZoned ws
    → w.on_top ≡ false
    → (qwswl_stack_lower_window ws w ≡ others w.address ws ++ (w ∷ []))
      × IsZoned (qwswl_stack_lower_window ws w)
unfolding qwswl_stack_lower_window
lower_lem ws w d h e = (
  ap (λ l. l ++ (w ∷ [])) (distinct_erase w.address ws d),
  IsZoned-then (erase_from_stack w.address ws) w (erase-IsZoned w.address ws h) e,
)

not_none_then : (ws : List Window) (w : Window) → w.on_top ≡ true → ¬ (NoneOnTop (ws ++ (w ∷ [])))
not_none_then [] w e h = cc
not_none_then (v ∷ ws) w e h = not_none_then ws w e h.1

-- In a stack without repetition, lowering a window on top while the first of the others is not on
-- top breaks the zones.
pub lower_breaks_zones :
    (ws rest : List Window) (w v : Window)
    → IsDistinct ws
    → others w.address ws ≡ v ∷ rest
    → v.on_top ≡ false
    → w.on_top ≡ true
    → ¬ (IsZoned (qwswl_stack_lower_window ws w))
unfolding qwswl_stack_lower_window
lower_breaks_zones ws rest w v d e off on h = not_none_then rest w on (
    tail-NoneOnTop v (rest ++ (w ∷ [])) off
      (subst (λ l. IsZoned (l ++ (w ∷ []))) (distinct_erase w.address ws d ∙ e) h))

-- The topmost toplevel window of a list.
abbrev pub first_toplevel : List Window → Option Window
first_toplevel [] = none
first_toplevel (w ∷ ws) = if qwswl_win_is_toplevel w then some w else first_toplevel ws

below_passed : (ws : List Window) (address : ℕ) → toplevel_below true ws address ≡ first_toplevel ws
unfolding toplevel_below
below_passed [] address = refl
below_passed (w ∷ ws) address = rw (below_passed ws address) refl

-- The search finds the topmost toplevel window of those behind the window, whatever stands before
-- it, if the window does not stand there too.
pub first_toplevel_below_lem :
    (front back : List Window) (w : Window)
    → Absent w.address front
    → qwswl_client_window_get_first_toplevel_below (front ++ (w ∷ back)) w.address
      ≡ first_toplevel back
unfolding qwswl_client_window_get_first_toplevel_below toplevel_below
first_toplevel_below_lem [] back w h =
    rw ((==_iff w.address w.address).1 refl) (below_passed back w.address)
first_toplevel_below_lem (v ∷ front) back w (e, h) = rw e (first_toplevel_below_lem front back w h)
