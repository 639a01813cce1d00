-- ===== src/Client/Stack.antt =====
-- The window stack of proxy/client.c: its two zones, windows on top and the others.
use qwswayland.Prelude.{
  ℕ, ◌≡◌, refl, sym, subst, ap, Bool, true, false, not, List, [], ◌∷◌, ◌==◌, if◌then◌else◌,
  Bool-cases, inl, inr,
}
use qwswayland.Client.{
  Window, insert_at_boundary, push_window_to_stack, erase_from_stack, qwswl_stack_raise_window,
}

-- No window is on top.
abbrev pub NoneOnTop : List Window → Type 0
NoneOnTop [] = Unit
NoneOnTop (w ∷ ws) = (w.on_top ≡ false) × NoneOnTop ws

-- The windows on top stand before all others.
abbrev pub IsZoned : List Window → Type 0
IsZoned [] = Unit
IsZoned (w ∷ ws) = (if w.on_top then IsZoned ws else NoneOnTop ws)

pub none-IsZoned : (ws : List Window) → NoneOnTop ws → IsZoned ws
none-IsZoned [] h = tt
none-IsZoned (w ∷ ws) (a, h) = rw a h

pub tail-IsZoned : (w : Window) (ws : List Window) → w.on_top ≡ true → IsZoned (w ∷ ws) → IsZoned ws
tail-IsZoned w ws e h = subst (λ b. if b then IsZoned ws else NoneOnTop ws) e h

pub tail-NoneOnTop :
    (w : Window) (ws : List Window) → w.on_top ≡ false → IsZoned (w ∷ ws) → NoneOnTop ws
tail-NoneOnTop w ws e h = subst (λ b. if b then IsZoned ws else NoneOnTop ws) e h

-- The window is not in the stack.
abbrev pub Absent : ℕ → List Window → Type 0
Absent address [] = Unit
Absent address (w ∷ ws) = ((w.address == address) ≡ false) × Absent address ws

-- No window stands twice in the stack.
abbrev pub IsDistinct : List Window → Type 0
IsDistinct [] = Unit
IsDistinct (w ∷ ws) = Absent w.address ws × IsDistinct ws

erase-NoneOnTop :
    (address : ℕ) (ws : List Window) → NoneOnTop ws → NoneOnTop (erase_from_stack address ws)
unfolding erase_from_stack
erase-NoneOnTop address [] h = tt
erase-NoneOnTop address (w ∷ ws) (a, h) = elim (Bool-cases (w.address == address)) [
  | inl e ↦ rw e h
  | inr e ↦ rw e (a, erase-NoneOnTop address ws h)
]

pub erase-IsZoned :
    (address : ℕ) (ws : List Window) → IsZoned ws → IsZoned (erase_from_stack address ws)
unfolding erase_from_stack
erase-IsZoned address [] h = tt
erase-IsZoned address (w ∷ ws) h = elim (Bool-cases (w.address == address)) [
  | inl e ↦ elim (Bool-cases w.on_top) [
    | inl t ↦ rw e (tail-IsZoned w ws t h)
    | inr t ↦ rw e (none-IsZoned ws (tail-NoneOnTop w ws t h))
  ]
  | inr e ↦ elim (Bool-cases w.on_top) [
    | inl t ↦ rw (e, t) (erase-IsZoned address ws (tail-IsZoned w ws t h))
    | inr t ↦ rw (e, t) (erase-NoneOnTop address ws (tail-NoneOnTop w ws t h))
  ]
]

insert-IsZoned :
    (ws : List Window) (w : Window)
    → IsZoned ws
    → w.on_top ≡ false
    → IsZoned (insert_at_boundary ws w)
unfolding insert_at_boundary
insert-IsZoned [] w h n = rw n tt
insert-IsZoned (v ∷ ws) w h n = elim (Bool-cases v.on_top) [
  | inl t ↦ rw t (insert-IsZoned ws w (tail-IsZoned v ws t h) n)
  | inr t ↦ rw (t, n) (refl, tail-NoneOnTop v ws t h)
]

insert_on_top-IsZoned :
    (ws : List Window) (w : Window)
    → IsZoned ws
    → w.on_top ≡ true
    → IsZoned (insert_at_boundary ws w)
unfolding insert_at_boundary
insert_on_top-IsZoned [] w h n = rw n tt
insert_on_top-IsZoned (v ∷ ws) w h n = elim (Bool-cases v.on_top) [
  | inl t ↦ rw t (insert_on_top-IsZoned ws w (tail-IsZoned v ws t h) n)
  | inr t ↦ rw (t, n) (tail-NoneOnTop v ws t h)
]

pub raise_if :
    (ws : List Window) (w : Window) (b : Bool)
    → w.on_top ≡ b
    → let rest = erase_from_stack w.address ws in
      qwswl_stack_raise_window ws w ≡ (if b then w ∷ rest else insert_at_boundary rest w)
unfolding qwswl_stack_raise_window
raise_if ws w b e =
    let rest = erase_from_stack w.address ws in
    ap (λ c. if c then w ∷ rest else insert_at_boundary rest w) e

pub insert_if :
    (v : Window) (ws : List Window) (w : Window) (b : Bool)
    → v.on_top ≡ b
    → insert_at_boundary (v ∷ ws) w ≡ (if b then v ∷ insert_at_boundary ws w else w ∷ v ∷ ws)
unfolding insert_at_boundary
insert_if v ws w true e = ap (λ c. if not c then w ∷ v ∷ ws else v ∷ insert_at_boundary ws w) e
insert_if v ws w false e = ap (λ c. if not c then w ∷ v ∷ ws else v ∷ insert_at_boundary ws w) e

-- Pushing keeps the zones apart, also for a window on top.
pub push-IsZoned :
    (ws : List Window) (w : Window) → IsZoned ws → IsZoned (push_window_to_stack ws w)
unfolding push_window_to_stack
push-IsZoned ws w h = elim (Bool-cases w.on_top) [
  | inl t ↦ insert_on_top-IsZoned ws w h t
  | inr t ↦ insert-IsZoned ws w h t
]

-- Raising any window keeps the windows on top before all others.
pub raise-IsZoned :
    (ws : List Window) (w : Window) → IsZoned ws → IsZoned (qwswl_stack_raise_window ws w)
unfolding qwswl_stack_raise_window
raise-IsZoned ws w h =
    let rest = erase-IsZoned w.address ws h in
    elim (Bool-cases w.on_top) [
      | inl t ↦ rw t rest
      | inr t ↦
          subst IsZoned (sym (raise_if ws w false t))
            (insert-IsZoned (erase_from_stack w.address ws) w rest t)
    ]
