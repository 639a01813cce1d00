-- ===== src/Rect/Bounds.antt =====
-- The bounding box and the guarded translation of libqwsproto/qws_rect.c.
use qwswayland.Prelude.{◌≡◌, true, false, List, [], ◌∷◌, ◌⊎◌, inl, inr, ◌↔◌, arith, Bool-cases}
use qwswayland.Prelude.Int.{ℤ, pos, ◌≤ℤ◌, int_laws}
use qwswayland.Rect.{
  Rect, translate_rect, qws_rect_translate, widen, widen_all, qws_rect_bounding_box, leaves_screen,
  qws_rect_try_translate,
}

-- `box` contains r.
pub record Within (box r : Rect) : Type 0 where
  pub left : box.x1 ≤ℤ r.x1
  pub top : box.y1 ≤ℤ r.y1
  pub right : r.x2 ≤ℤ box.x2
  pub bottom : r.y2 ≤ℤ box.y2

abbrev pub AllWithin : Rect → List Rect → Type 0
AllWithin box [] = Unit
AllWithin box (r ∷ rs) = Within box r × AllWithin box rs

Within-refl : (r : Rect) → Within r r
Within-refl r = omega arith

Within-trans : (a b c : Rect) → Within a b → Within b c → Within a c
Within-trans a b c h k = omega arith

widen_left : (box r : Rect) → Within (widen box r) box
unfolding widen
widen_left box r = ground arith

widen_right : (box r : Rect) → Within (widen box r) r
unfolding widen
widen_right box r = ground arith

-- The widened box is the least one.
widen_least : (box r b : Rect) → Within b box → Within b r → Within b (widen box r)
unfolding widen
widen_least box r b h k = ground arith

widen_all-Within : (box : Rect) (rs : List Rect) → Within (widen_all box rs) box
unfolding widen_all
widen_all-Within box [] = Within-refl box
widen_all-Within box (r ∷ rs) =
    Within-trans _ (widen box r) box (widen_all-Within (widen box r) rs) (widen_left box r)

widen_all-AllWithin : (box : Rect) (rs : List Rect) → AllWithin (widen_all box rs) rs
unfolding widen_all
widen_all-AllWithin box [] = tt
widen_all-AllWithin box (r ∷ rs) = (
  Within-trans _ (widen box r) r (widen_all-Within (widen box r) rs) (widen_right box r),
  widen_all-AllWithin (widen box r) rs,
)

widen_all-least :
    (box b : Rect) (rs : List Rect) → Within b box → AllWithin b rs → Within b (widen_all box rs)
unfolding widen_all
widen_all-least box b [] h k = h
widen_all-least box b (r ∷ rs) h k =
    widen_all-least (widen box r) b rs (widen_least box r b h k.0) k.1

-- The bounding box contains every rectangle, and every box that does contains it.
pub bounding_box-least :
    (r : Rect) (rs : List Rect)
    → AllWithin (qws_rect_bounding_box r rs) (r ∷ rs)
      × ((b : Rect) → AllWithin b (r ∷ rs) → Within b (qws_rect_bounding_box r rs))
unfolding qws_rect_bounding_box
bounding_box-least r rs =
    ((widen_all-Within r rs, widen_all-AllWithin r rs), λ b h. widen_all-least r b rs h.0 h.1)

-- Moving commutes with the order of rectangles.
translate-Within :
    (dx dy : ℤ) (a b : Rect) → Within (translate_rect dx dy a) (translate_rect dx dy b) ↔ Within a b
unfolding translate_rect
translate-Within dx dy a b = (λ h. omega int_laws, λ h. omega int_laws)

pub translate-AllWithin :
    (dx dy : ℤ) (b : Rect) (rs : List Rect)
    → AllWithin b rs
    → AllWithin (translate_rect dx dy b) (qws_rect_translate rs dx dy)
unfolding qws_rect_translate
translate-AllWithin dx dy b [] h = tt
translate-AllWithin dx dy b (r ∷ rs) h =
    ((translate-Within dx dy b r).1 h.0, translate-AllWithin dx dy b rs h.1)

-- On the screen {(0,0), (max_x, max_y)}, as far as the guard looks at a rectangle.
pub record OnScreen (max_x max_y : ℤ) (r : Rect) : Type 0 where
  pub left : pos 0 ≤ℤ r.x1
  pub top : pos 0 ≤ℤ r.y1
  pub right : r.x2 ≤ℤ max_x
  pub bottom : r.y2 ≤ℤ max_y

abbrev pub AllOnScreen : ℤ → ℤ → List Rect → Type 0
AllOnScreen max_x max_y [] = Unit
AllOnScreen max_x max_y (r ∷ rs) = OnScreen max_x max_y r × AllOnScreen max_x max_y rs

OnScreen-Within :
    (max_x max_y : ℤ) (b r : Rect) → OnScreen max_x max_y b → Within b r → OnScreen max_x max_y r
OnScreen-Within max_x max_y b r h k = omega arith

pub AllOnScreen-Within :
    (max_x max_y : ℤ) (b : Rect) (rs : List Rect)
    → OnScreen max_x max_y b
    → AllWithin b rs
    → AllOnScreen max_x max_y rs
AllOnScreen-Within max_x max_y b [] h k = tt
AllOnScreen-Within max_x max_y b (r ∷ rs) h k =
    (OnScreen-Within max_x max_y b r h k.0, AllOnScreen-Within max_x max_y b rs h k.1)

stays-OnScreen :
    (max_x max_y : ℤ) (b : Rect) → leaves_screen b max_x max_y ≡ false → OnScreen max_x max_y b
unfolding leaves_screen
stays-OnScreen max_x max_y b h = ground arith

-- A guarded translation either answers false and changes nothing, or answers true, moves every
-- rectangle, and leaves them all on the screen.
pub try_translate_lem :
    (r : Rect) (rs : List Rect) (dx dy max_x max_y : ℤ)
    → let (moved, after) = qws_rect_try_translate (r ∷ rs) dx dy max_x max_y in
      ((moved ≡ false) × (after ≡ r ∷ rs))
      ⊎ ((moved ≡ true)
          × (after ≡ qws_rect_translate (r ∷ rs) dx dy)
          × AllOnScreen max_x max_y after)
unfolding qws_rect_try_translate
try_translate_lem r rs dx dy max_x max_y =
    let box = translate_rect dx dy (qws_rect_bounding_box r rs) in
    elim (Bool-cases (leaves_screen box max_x max_y)) [
      | inl e ↦ inl (rw e, rw e)
      | inr e ↦ inr (
        rw e,
        rw e,
        rw e (
            AllOnScreen-Within max_x max_y box (qws_rect_translate (r ∷ rs) dx dy)
              (stays-OnScreen max_x max_y box e)
              (translate-AllWithin dx dy (qws_rect_bounding_box r rs) (r ∷ rs)
                (bounding_box-least r rs).0)),
      )
    ]
