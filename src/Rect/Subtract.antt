-- ===== src/Rect/Subtract.antt =====
-- qws_rect_subtract of libqwsproto/qws_rect.c. It hands QWS rectangles, whose corners are both
-- covered, to pixman, whose boxes exclude x2 and y2.
use qwswayland.Prelude.{◌≡◌, refl, true, List, [], ◌∷◌, ◌⊎◌, inl, inr, ◌↔◌, arith}
use qwswayland.Prelude.Int.{ℤ, pos, ◌+ℤ◌, ◌≤ℤ◌, ◌<ℤ◌, int_laws}
use qwswayland.Rect.{Rect, qws_rect_subtract, qws_rect_clone, copy_boxes}
use qwswayland.Rect.Clip.{Covers}

-- The points of a pixman box.
pub record InBox (r : Rect) (x y : ℤ) : Type 0 where
  pub from_left : r.x1 ≤ℤ x
  pub from_top : r.y1 ≤ℤ y
  pub before_right : x <ℤ r.x2
  pub before_bottom : y <ℤ r.y2

abbrev pub InRegion : List Rect → ℤ → ℤ → Type 0
InRegion [] x y = ⊥
InRegion (r ∷ rs) x y = InBox r x y ⊎ InRegion rs x y

abbrev pub CoveredBy : List Rect → ℤ → ℤ → Type 0
CoveredBy [] x y = ⊥
CoveredBy (r ∷ rs) x y = Covers r x y ⊎ CoveredBy rs x y

-- pixman_region32_subtract, as pixman documents it.
abbrev pub IsSubtract : (List Rect → List Rect → List Rect) → Type 0
IsSubtract region_subtract =
    (a b : List Rect) (x y : ℤ)
    → InRegion (region_subtract a b) x y ↔ (InRegion a x y × ¬ (InRegion b x y))

copied_all : (rs : List Rect) → copy_boxes true rs ≡ rs
unfolding copy_boxes
copied_all [] = refl
copied_all (r ∷ rs) = refl

module _ (region_subtract : List Rect → List Rect → List Rect) where
  -- With memory for the copy, the result has the points of a that are not in b, in pixman's reading.
  pub subtract-InRegion :
      IsSubtract region_subtract
      → (a b : List Rect) (x y : ℤ)
      → InRegion (qws_rect_subtract region_subtract true a b) x y
        ↔ (InRegion a x y × ¬ (InRegion b x y))
  unfolding qws_rect_subtract qws_rect_clone
  subtract-InRegion spec [] b x y = (λ h. absurd h, λ h. h.0)
  subtract-InRegion spec (r ∷ rs) [] x y = (λ h. (h, λ n. n), λ h. h.0)
  subtract-InRegion spec (r ∷ rs) (b ∷ bs) x y =
      rw (copied_all (region_subtract (r ∷ rs) (b ∷ bs))) (spec (r ∷ rs) (b ∷ bs) x y)

  box_reaches_right : (rs : List Rect) (x y : ℤ) → InRegion rs x y → CoveredBy rs (x +ℤ pos 1) y
  box_reaches_right [] x y h = h
  box_reaches_right (r ∷ rs) x y (inl h) = inl (record {
    from_left = omega int_laws;
    from_top = omega int_laws;
    to_right = omega int_laws;
    to_bottom = omega int_laws;
  })
  box_reaches_right (r ∷ rs) x y (inr h) = inr (box_reaches_right rs x y h)

  box_in_rect : (rs : List Rect) (x y : ℤ) → InRegion rs x y → CoveredBy rs x y
  box_in_rect [] x y h = h
  box_in_rect (r ∷ rs) x y (inl h) = inl (omega arith)
  box_in_rect (r ∷ rs) x y (inr h) = inr (box_in_rect rs x y h)

  -- If pixman subtracts as documented and memory suffices, then in the wire format's reading of the
  -- rectangles the difference still covers pixels of what was taken away: the first column to the
  -- right of a point that is kept.
  pub subtract_overlaps :
      IsSubtract region_subtract
      → (a b : List Rect) (x y : ℤ) → InRegion a x y
      → ¬ (InRegion b x y)
      → InRegion b (x +ℤ pos 1) y
      → CoveredBy (qws_rect_subtract region_subtract true a b) (x +ℤ pos 1) y
        × CoveredBy b (x +ℤ pos 1) y
  subtract_overlaps spec a b x y ha nb hb = (
    box_reaches_right _ x y ((subtract-InRegion spec a b x y).1 (ha, nb)),
    box_in_rect b (x +ℤ pos 1) y hb,
  )
