-- ===== src/Client/Reorder.antt =====
-- qwswl_reorder_toplevels of proxy/client.c: the requests that bring the compositor's order of the
-- shell surfaces in line with the window stack.
use qwswayland.Prelude.{
  ℕ, ◌+◌, ◌≤◌, ◌≡◌, refl, ap, ◌∙◌, false, not, ◌||◌, Option, none, some, List, [], ◌∷◌, ◌++◌, ◌==◌,
  ◌>>=◌, ltb, lt→ltb, if◌then◌else◌, map, flatten, length, arith,
}
use qwswayland.Props.{is_some}
use qwswayland.Client.{
  Window, Request, place_above, raise, raise_backwards, cons_some, count_of, window_max_children,
  collect_toplevels, qwswl_reorder_toplevels,
}

-- The surfaces other than one.
abbrev pub without : ℕ → List ℕ → List ℕ
without s [] = []
without s (t ∷ ts) = if t == s then without s ts else t ∷ without s ts

abbrev pub IsNew : ℕ → List ℕ → Type 0
IsNew s [] = Unit
IsNew s (t ∷ ts) = ((t == s) ≡ false) × IsNew s ts

-- No surface stands twice in the list.
abbrev pub NoRepeat : List ℕ → Type 0
NoRepeat [] = Unit
NoRepeat (s ∷ ss) = IsNew s ss × NoRepeat ss

without-append : (s : ℕ) (ss ts : List ℕ) → IsNew s ss → without s (ss ++ ts) ≡ ss ++ without s ts
without-append s [] ts h = refl
without-append s (t ∷ ss) ts (e, h) = rw e (ap (λ l. t ∷ l) (without-append s ss ts h))

-- The compositor's order, topmost first, after the requests that concern it.
abbrev pub receive : (List ℕ → ℕ → List ℕ) → List ℕ → List Request → List ℕ
receive raise_surface order [] = order
receive raise_surface order (raise s ∷ requests) =
    receive raise_surface (raise_surface order s) requests
receive raise_surface order (place_above a b ∷ requests) = receive raise_surface order requests

-- What zqt_shell_surface_v1.raise promises: the surface comes to the front, the others keep their
-- order.
abbrev pub IsRaise : (List ℕ → ℕ → List ℕ) → Type 0
IsRaise raise_surface = (order : List ℕ) (s : ℕ) → raise_surface order s ≡ s ∷ without s order

-- The shell surfaces of a stack, in its order.
abbrev pub surfaces_of : List Window → List ℕ
surfaces_of stack =
    flatten (map (λ w. elim w.zqt_shell_surface [ none ↦ [] | some s ↦ s ∷ [] ]) stack)

collected :
    (toplevel : Option ℕ) (n : ℕ) (further : Option (List ℕ)) (ss : List ℕ)
    → n + length ((elim toplevel [ none ↦ [] | some s ↦ s ∷ [] ]) ++ ss) ≤ window_max_children
    → further ≡ some ss
    → (if not (is_some toplevel) || ltb n window_max_children
        then (further >>= λ ts. some (cons_some toplevel ts))
        else none)
      ≡ some ((elim toplevel [ none ↦ [] | some s ↦ s ∷ [] ]) ++ ss)
collected none n further ss h e = rw e refl
collected (some s) n further ss h e = rw (lt→ltb n window_max_children (omega arith), e) refl

counted :
    (toplevel : Option ℕ) (n : ℕ) (ss : List ℕ)
    → n + length ((elim toplevel [ none ↦ [] | some s ↦ s ∷ [] ]) ++ ss) ≤ window_max_children
    → n + count_of toplevel + length ss ≤ window_max_children
counted none n ss h = omega arith
counted (some s) n ss h = omega arith

-- As long as the array has room, the shell surfaces are collected in the order of the stack.
pub collect_toplevels_lem :
    (n : ℕ) (stack : List Window)
    → n + length (surfaces_of stack) ≤ window_max_children
    → collect_toplevels n stack ≡ some (surfaces_of stack)
unfolding collect_toplevels flatten map
collect_toplevels_lem n [] h = refl
collect_toplevels_lem n (w ∷ rest) h =
    let toplevel = w.zqt_shell_surface in
    collected toplevel n _ (surfaces_of rest) h
      (collect_toplevels_lem (n + count_of toplevel) rest (counted toplevel n (surfaces_of rest) h))

module _ (raise_surface : List ℕ → ℕ → List ℕ) (law : IsRaise raise_surface) where
  receive-append :
      (requests more : List Request) (order : List ℕ)
      → receive raise_surface order (requests ++ more)
        ≡ receive raise_surface (receive raise_surface order requests) more
  receive-append [] more order = refl
  receive-append (raise s ∷ requests) more order =
      receive-append requests more (raise_surface order s)
  receive-append (place_above a b ∷ requests) more order = receive-append requests more order

  raised_all :
      (surfaces order : List ℕ)
      → NoRepeat surfaces
      → (rest : List ℕ) × (receive raise_surface order (raise_backwards surfaces)
          ≡ surfaces ++ rest)
  raised_all [] order h = (order, refl)
  raised_all (s ∷ ss) order (new, h) =
      let (rest, e) = raised_all ss order h in
      (
        without s rest,
        receive-append (raise_backwards ss) (raise s ∷ []) order
            ∙ ap (λ l. raise_surface l s) e
            ∙ law (ss ++ rest) s
            ∙ ap (λ l. s ∷ l) (without-append s ss rest new),
      )

  -- If a raise request brings its surface to the front, then for a stack without repetition and
  -- with at most 128 shell surfaces, the assertion holds, and after the requests, whatever the
  -- compositor's order was, the shell surfaces are at its front, in the order of the window stack.
  pub reorder_toplevels_lem :
      (stack : List Window) (order : List ℕ)
      → NoRepeat (surfaces_of stack)
      → length (surfaces_of stack) ≤ window_max_children
      → (requests : List Request) × (rest : List ℕ) × (qwswl_reorder_toplevels stack
          ≡ some requests)
        × (receive raise_surface order requests ≡ surfaces_of stack ++ rest)
  unfolding qwswl_reorder_toplevels
  reorder_toplevels_lem stack order h room =
      let (rest, e) = raised_all (surfaces_of stack) order h in
      (
        raise_backwards (surfaces_of stack),
        rest,
        rw (collect_toplevels_lem 0 stack (omega (arith, room))) refl,
        e,
      )
