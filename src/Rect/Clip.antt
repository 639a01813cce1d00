-- ===== src/Rect/Clip.antt =====
-- qws_clip_rects of libqwsproto/qws_rect.c, in pixels: a rectangle covers the pixels from (x1, y1) up
-- to (x2, y2), both included, as the wire format's QRect does.
use qwswayland.Prelude.{List, [], ◌∷◌, ◌↔◌, arith}
use qwswayland.Prelude.Int.{ℤ, pos, ◌≤ℤ◌, ◌<ℤ◌}
use qwswayland.Rect.{Rect, clamp, clamp_x1, clip_rect, qws_clip_rects}
use qwswayland.Rect.Bounds.{OnScreen, AllOnScreen}

pub record Covers (r : Rect) (x y : ℤ) : Type 0 where
  pub from_left : r.x1 ≤ℤ x
  pub from_top : r.y1 ≤ℤ y
  pub to_right : x ≤ℤ r.x2
  pub to_bottom : y ≤ℤ r.y2

pub record IsPixel (max_x max_y x y : ℤ) : Type 0 where
  pub left : pos 0 ≤ℤ x
  pub top : pos 0 ≤ℤ y
  pub right : x ≤ℤ max_x
  pub bottom : y ≤ℤ max_y

-- The rectangle lies on the screen in part.
pub record Meets (max_x max_y : ℤ) (r : Rect) : Type 0 where
  pub left : pos 0 ≤ℤ r.x2
  pub top : pos 0 ≤ℤ r.y2
  pub right : r.x1 ≤ℤ max_x
  pub bottom : r.y1 ≤ℤ max_y

clamp_lower : (v hi x : ℤ) → v ≤ℤ hi → pos 0 ≤ℤ hi → (clamp v hi ≤ℤ x) ↔ ((v ≤ℤ x) × (pos 0 ≤ℤ x))
unfolding clamp
clamp_lower v hi x h k = (λ l. (ground arith, ground arith), λ l. ground arith)

clamp_x1_lower :
    (v hi x : ℤ) → v ≤ℤ hi → pos 0 ≤ℤ hi → (clamp_x1 v hi ≤ℤ x) ↔ ((v ≤ℤ x) × (pos 0 ≤ℤ x))
unfolding clamp_x1
clamp_x1_lower v hi x h k = (λ l. (ground arith, ground arith), λ l. ground arith)

clamp_upper : (v hi x : ℤ) → pos 0 ≤ℤ v → (x ≤ℤ clamp v hi) ↔ ((x ≤ℤ v) × (x ≤ℤ hi))
unfolding clamp
clamp_upper v hi x h = (λ l. (ground arith, ground arith), λ l. ground arith)

clamp_range : (v hi : ℤ) → pos 0 ≤ℤ hi → (pos 0 ≤ℤ clamp v hi) × (clamp v hi ≤ℤ hi)
unfolding clamp
clamp_range v hi h = (ground arith, ground arith)

clamp_x1_range : (v hi : ℤ) → pos 0 ≤ℤ hi → (pos 0 ≤ℤ clamp_x1 v hi) × (clamp_x1 v hi ≤ℤ hi)
unfolding clamp_x1
clamp_x1_range v hi h = (ground arith, ground arith)

module _ (max_x max_y : ℤ) (wide : pos 0 ≤ℤ max_x) (high : pos 0 ≤ℤ max_y) where
  clip_rect-OnScreen : (r : Rect) → OnScreen max_x max_y (clip_rect max_x max_y r)
  unfolding clip_rect
  clip_rect-OnScreen r = record {
    left = (clamp_x1_range r.x1 max_x wide).0;
    top = (clamp_range r.y1 max_y high).0;
    right = (clamp_range r.x2 max_x wide).1;
    bottom = (clamp_range r.y2 max_y high).1;
  }

  -- Every clipped rectangle is on the screen.
  pub clip_rects-AllOnScreen :
      (rs : List Rect) → AllOnScreen max_x max_y (qws_clip_rects rs max_x max_y)
  unfolding qws_clip_rects
  clip_rects-AllOnScreen [] = tt
  clip_rects-AllOnScreen (r ∷ rs) = (clip_rect-OnScreen r, clip_rects-AllOnScreen rs)

  -- Clipping a rectangle that meets a screen with a pixel keeps exactly its pixels on the screen.
  pub clip-Covers :
      (r : Rect) (x y : ℤ)
      → Meets max_x max_y r
      → Covers (clip_rect max_x max_y r) x y ↔ (Covers r x y × IsPixel max_x max_y x y)
  unfolding clip_rect
  clip-Covers r x y m =
      let l = clamp_x1_lower r.x1 max_x x m.right wide in
      let t = clamp_lower r.y1 max_y y m.bottom high in
      let e = clamp_upper r.x2 max_x x m.left in
      let b = clamp_upper r.y2 max_y y m.top in
      (
        λ h.
            let l' = l.0 h.from_left in
            let t' = t.0 h.from_top in
            let e' = e.0 h.to_right in
            let b' = b.0 h.to_bottom in
            (
              record { from_left = l'.0; from_top = t'.0; to_right = e'.0; to_bottom = b'.0 },
              record { left = l'.1; top = t'.1; right = e'.1; bottom = b'.1 },
            ),
        λ h. record {
          from_left = l.1 (h.0.from_left, h.1.left);
          from_top = t.1 (h.0.from_top, h.1.top);
          to_right = e.1 (h.0.to_right, h.1.right);
          to_bottom = b.1 (h.0.to_bottom, h.1.bottom);
        },
      )

  -- A rectangle to the left of a screen with a pixel becomes a column of pixels on the screen that
  -- it did not cover.
  pub clip_left_of_screen :
      (r : Rect) (y : ℤ)
      → r.x1 <ℤ pos 0
      → r.x2 <ℤ pos 0
      → r.y1 ≤ℤ y
      → y ≤ℤ r.y2
      → pos 0 ≤ℤ y
      → y ≤ℤ max_y
      → Covers (clip_rect max_x max_y r) (pos 0) y × ¬ (Covers r (pos 0) y)
  unfolding clip_rect
  clip_left_of_screen r y a b c d e f = (ground arith, λ h. omega arith)
