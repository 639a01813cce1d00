-- ===== src/Dispatch/Altitude/Found.antt =====
-- The window of QWS_CMD_CHANGE_ALTITUDE in proxy/proxy.c stays in the stack.
use qwswayland.Prelude.{
  ℕ, ◌≡◌, refl, sym, subst, ap, ◌∙◌, true, false, ◌||◌, some, List, [], ◌∷◌, ◌++◌, if◌then◌else◌,
  ◌==◌, arith, Bool-cases, inl, inr, ==_iff,
}
use qwswayland.Client.{Window, qwswl_stack_raise_window, qwswl_stack_lower_window, erase_from_stack}
use qwswayland.Client.Stack.{raise_if}
use qwswayland.Client.Windows.Lookup.{stands, insert-stands, self_eq}
use qwswayland.Dispatch.Altitude.{window_at, set_on_top}

-- The address has its window.
unfoldable pub Found : ℕ → List Window → Type 0
Found address ws = (w : Window) × (window_at address ws ≡ some w) × (w.address ≡ address)

pub stands-Found : (address : ℕ) (ws : List Window) → stands address ws ≡ true → Found address ws
unfolding Found window_at
stands-Found address [] h = subst (λ b. if b then Found address [] else Unit) h tt
stands-Found address (w ∷ ws) h = elim (Bool-cases (w.address == address)) [
  | inl s ↦ (w, rw s refl, (==_iff w.address address).0 s)
  | inr s ↦
      let (v, e, a) = stands-Found address ws (ap (λ b. b || stands address ws) (sym s) ∙ h) in
      (v, rw s e, a)
]

pub set_on_top-stands :
    (address : ℕ) (ws : List Window)
    → stands address ws ≡ true
    → stands address (set_on_top address ws) ≡ true
unfolding set_on_top
set_on_top-stands address [] h = h
set_on_top-stands address (w ∷ ws) h = elim (Bool-cases (w.address == address)) [
  | inl s ↦ rw s (ap (λ b. b || stands address ws) s)
  | inr s ↦ rw (s, s) (set_on_top-stands address ws (ap (λ b. b || stands address ws) (sym s) ∙ h))
]

pub raise-stands :
    (stack : List Window) (w : Window) → stands w.address (qwswl_stack_raise_window stack w) ≡ true
unfolding qwswl_stack_raise_window
raise-stands stack w =
    let rest = erase_from_stack w.address stack in
    elim (Bool-cases w.on_top) [
      | inl t ↦
          subst (λ s. stands w.address s ≡ true) (sym (raise_if stack w true t))
            (rw (self_eq w.address) refl)
      | inr t ↦
          subst (λ s. stands w.address s ≡ true) (sym (raise_if stack w false t))
            (insert-stands rest w)
    ]

pub append-stands : (ws : List Window) (w : Window) → stands w.address (ws ++ (w ∷ [])) ≡ true
append-stands [] w = rw (self_eq w.address) refl
append-stands (v ∷ ws) w = ground (arith, append-stands ws w)

pub lower-stands :
    (stack : List Window) (w : Window) → stands w.address (qwswl_stack_lower_window stack w) ≡ true
unfolding qwswl_stack_lower_window
lower-stands stack w = append-stands (erase_from_stack w.address stack) w
