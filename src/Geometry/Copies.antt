-- ===== src/Geometry/Copies.antt =====
-- The copies that qwswl_update_surface of proxy/window.c makes, and the buffer.
use qwswayland.Prelude.{◌≡◌, refl, Bool, true, false, List, [], ◌∷◌, arith}
use qwswayland.Prelude.Int.{ℤ, pos, ◌+ℤ◌, ◌-ℤ◌, ◌≤ℤ◌, ◌<ℤ◌, int_laws}
use qwswayland.Rect.{Rect, qws_rect_translate, qws_clip_rects, clamp}
use qwswayland.Rect.Bounds.{OnScreen, AllOnScreen}
use qwswayland.Rect.Clip.{clip_rects-AllOnScreen}
use qwswayland.Geometry.{Geometry, Copy, copy_of, copies_of, qwswl_update_surface, full_window}

-- A copy reads and writes pixels of a buffer of this size only.
pub record InBuffer (width height : ℤ) (c : Copy) : Type 0 where
  pub left : pos 0 ≤ℤ c.x
  pub top : pos 0 ≤ℤ c.y
  pub right : (c.x +ℤ c.w) ≤ℤ width
  pub bottom : (c.y +ℤ c.h) ≤ℤ height

abbrev pub AllInBuffer : ℤ → ℤ → List Copy → Type 0
AllInBuffer width height [] = Unit
AllInBuffer width height (c ∷ cs) = InBuffer width height c × AllInBuffer width height cs

copy-InBuffer :
    (width height : ℤ) (r : Rect)
    → OnScreen (width -ℤ pos 1) (height -ℤ pos 1) r
    → InBuffer width height (copy_of r)
copy-InBuffer width height r h = omega int_laws

copies-AllInBuffer :
    (width height : ℤ) (rs : List Rect)
    → AllOnScreen (width -ℤ pos 1) (height -ℤ pos 1) rs
    → AllInBuffer width height (copies_of rs)
unfolding copies_of
copies-AllInBuffer width height [] h = tt
copies-AllInBuffer width height (r ∷ rs) h =
    (copy-InBuffer width height r h.0, copies-AllInBuffer width height rs h.1)

-- Whatever rectangles are asked for, the copies stay within the buffer, if the buffer has a pixel.
pub update_surface-AllInBuffer :
    (has_pixels : Bool) (width height : ℤ) (g : Geometry) (rects : List Rect)
    → pos 1 ≤ℤ width
    → pos 1 ≤ℤ height
    → AllInBuffer width height (qwswl_update_surface has_pixels width height g rects)
unfolding qwswl_update_surface
update_surface-AllInBuffer false width height g rects w h = tt
update_surface-AllInBuffer true width height g rects w h =
    copies-AllInBuffer width height _ (
      clip_rects-AllOnScreen (width -ℤ pos 1) (height -ℤ pos 1) (omega int_laws) (omega int_laws) _)

clamp_below : (v hi : ℤ) → v <ℤ hi → pos 0 <ℤ hi → clamp v hi <ℤ hi
unfolding clamp
clamp_below v hi h k = ground arith

-- For a window of at least two columns whose place is to the right of the screen's left edge, the
-- one copy that a move makes ends before the last column of pixels.
pub full_window_too_narrow :
    (g : Geometry)
    → pos 0 <ℤ g.x
    → pos 2 ≤ℤ g.width
    → (c : Copy) × (qwswl_update_surface true g.width g.height g (full_window g ∷ []) ≡ c ∷ [])
      × ((c.x +ℤ c.w) <ℤ g.width)
unfolding qwswl_update_surface full_window copies_of qws_rect_translate qws_clip_rects
full_window_too_narrow g h w =
    let right =
      clamp_below (g.width -ℤ pos 1 +ℤ (pos 0 -ℤ g.x)) (g.width -ℤ pos 1) (omega int_laws)
        (omega int_laws) in
    (_, refl, omega int_laws)
