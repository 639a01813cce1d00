-- ===== src/Client/Regions/Events.antt =====
-- The region events that qwswl_update_regions of proxy/client.c sends, by what the windows show before
-- and after.
use qwswayland.Prelude.{
  ◌≡◌, refl, sym, ap, ap₂, ◌∙◌, Bool, true, false, not, ◌&&◌, ◌||◌, Option, none, List, [], ◌∷◌,
  ◌==◌, if◌then◌else◌, some, arith, Bool-cases, inl, inr,
}
use qwswayland.Prelude.Int.{eqb_ℤ, eqb_ℤ_iff}
use qwswayland.Rect.{Rect}
use qwswayland.Client.{Window}
use qwswayland.Client.Regions.{same_rects, RegionEvent, is_requesting, needs_event, late_event}

and_true : (a b : Bool) → a && b ≡ true → (a ≡ true) × (b ≡ true)
and_true a b e = ground arith

same_rect :
    (r s : Rect)
    → (eqb_ℤ r.x1 s.x1 && (eqb_ℤ r.y1 s.y1 && (eqb_ℤ r.x2 s.x2 && eqb_ℤ r.y2 s.y2))) ≡ true
    → r ≡ s
same_rect r s e =
    let (a, e') = and_true (eqb_ℤ r.x1 s.x1) _ e in
    let (b, e'') = and_true (eqb_ℤ r.y1 s.y1) _ e' in
    let (c, d) = and_true (eqb_ℤ r.x2 s.x2) _ e'' in
    let x1 = (eqb_ℤ_iff r.x1 s.x1).0 a in
    let y1 = (eqb_ℤ_iff r.y1 s.y1).0 b in
    let x2 = (eqb_ℤ_iff r.x2 s.x2).0 c in
    let y2 = (eqb_ℤ_iff r.y2 s.y2).0 d in λ i. record { x1 = x1 i; y1 = y1 i; x2 = x2 i; y2 = y2 i }

pub same_rects_eq : (rs ss : List Rect) → same_rects rs ss ≡ true → rs ≡ ss
unfolding same_rects
same_rects_eq [] [] e = refl
same_rects_eq [] (s ∷ ss) e = cc
same_rects_eq (r ∷ rs) [] e = cc
same_rects_eq (r ∷ rs) (s ∷ ss) e =
    let (a, b) = and_true _ (same_rects rs ss) e in
    ap₂ (λ x xs. x ∷ xs) (same_rect r s a) (same_rects_eq rs ss b)

same_rects_self : (rs : List Rect) → same_rects rs rs ≡ true
unfolding same_rects
same_rects_self [] = refl
same_rects_self (r ∷ rs) =
    rw
      (
        (eqb_ℤ_iff r.x1 r.x1).1 refl,
        (eqb_ℤ_iff r.y1 r.y1).1 refl,
        (eqb_ℤ_iff r.x2 r.x2).1 refl,
        (eqb_ℤ_iff r.y2 r.y2).1 refl,
      )
      (same_rects_self rs)

-- What the turns of the loop send, and whether one of them was for the requesting window.
abbrev pub turn_events : Option Window → List Window → List Window → List RegionEvent
turn_events requesting [] new = []
turn_events requesting (v ∷ old) [] = []
turn_events requesting (v ∷ old) (w ∷ new) =
    if needs_event requesting v w.visible_rects
    then record { window = w.address; rects = w.visible_rects } ∷ turn_events requesting old new
    else turn_events requesting old new

abbrev pub turn_found : Option Window → List Window → Bool
turn_found requesting [] = false
turn_found requesting (w ∷ ws) = is_requesting requesting w || turn_found requesting ws

abbrev pub asks : Option Window → Window → Bool
asks none w = false
asks (some r) w = r.address == w.address

asks_lem :
    (requesting : Option Window) (w : Window) → is_requesting requesting w ≡ asks requesting w
asks_lem none w = refl
asks_lem (some r) w = ground arith

not_both : true ≡ false → ⊥
not_both e = cc

pub dec_rects : (rs ss : List Rect) → Dec (rs ≡ ss)
dec_rects rs ss = elim (Bool-cases (same_rects rs ss)) [
  | inl e ↦ yes (same_rects_eq rs ss e)
  | inr e ↦ no (λ p. not_both (sym (same_rects_self rs) ∙ ap (same_rects rs) p ∙ e))
]

abbrev pub differ : {rs ss : List Rect} → Dec (rs ≡ ss) → Bool
differ (yes p) = false
differ (no n) = true

differ_lem : (rs ss : List Rect) (d : Dec (rs ≡ ss)) → not (same_rects rs ss) ≡ differ d
differ_lem rs ss (yes p) = ap not (sym (ap (same_rects rs) p) ∙ same_rects_self rs)
differ_lem rs ss (no n) = elim (Bool-cases (same_rects rs ss)) [
  | inl e ↦ absurd (n (same_rects_eq rs ss e))
  | inr e ↦ ap not e
]

-- The events for windows that stood in the stack as `old` and stand there as `new`: one for each
-- window that asks or that shows something else than before.
abbrev pub events_for : Option Window → List Window → List Window → List RegionEvent
events_for requesting [] new = []
events_for requesting (v ∷ old) [] = []
events_for requesting (v ∷ old) (w ∷ new) =
    if asks requesting v || differ (dec_rects w.visible_rects v.visible_rects)
    then record { window = w.address; rects = w.visible_rects } ∷ events_for requesting old new
    else events_for requesting old new

abbrev pub in_stack : Option Window → List Window → Bool
in_stack requesting [] = false
in_stack requesting (w ∷ ws) = asks requesting w || in_stack requesting ws

pub events_lem :
    (requesting : Option Window) (old new : List Window)
    → turn_events requesting old new ≡ events_for requesting old new
events_lem requesting [] new = refl
events_lem requesting (v ∷ old) [] = refl
events_lem requesting (v ∷ old) (w ∷ new) =
    ap₂ (λ b es. if b then record { window = w.address; rects = w.visible_rects } ∷ es else es)
      (ap₂ (λ a b. a || b) (asks_lem requesting v)
        (differ_lem w.visible_rects v.visible_rects (dec_rects w.visible_rects v.visible_rects)))
      (events_lem requesting old new)

pub found_lem :
    (requesting : Option Window) (ws : List Window)
    → turn_found requesting ws ≡ in_stack requesting ws
found_lem requesting [] = refl
found_lem requesting (w ∷ ws) =
    ap₂ (λ a b. a || b) (asks_lem requesting w) (found_lem requesting ws)

-- The event that is still owed to a requesting window: one, for a window that no earlier event counts
-- for.
abbrev pub owed : Option Window → Bool → List RegionEvent
owed none counted = []
owed (some r) true = []
owed (some r) false = record { window = r.address; rects = r.visible_rects } ∷ []

pub owed_lem :
    (requesting : Option Window) (counted : Bool)
    → late_event requesting counted ≡ owed requesting counted
owed_lem none counted = refl
owed_lem (some r) true = refl
owed_lem (some r) false = refl
