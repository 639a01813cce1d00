-- ===== src/Examples/Rectangles.antt =====
-- Rectangles and geometries: libqwsproto/qws_rect.c and proxy/window.c.
use qwswayland.Prelude.{true, none, [], ◌∷◌, ◌↔◌, arith}
use qwswayland.Prelude.Int.{pos, negsuc, ◌+ℤ◌, ◌-ℤ◌, InInt32}
use qwswayland.Rect.{Rect, qws_rect_bounding_box, clip_rect}
use qwswayland.Rect.Clip.{Covers, IsPixel, clip-Covers}
use qwswayland.Geometry.{Geometry, qwswl_update_geometry, qwswl_update_surface}
use qwswayland.Geometry.Placement.{IsPlaced, update_geometry_lem}
use qwswayland.Geometry.Copies.{AllInBuffer, update_surface-AllInBuffer}

abbrev first : Rect
first = record { x1 = pos 2; y1 = pos 3; x2 = pos 7; y2 = pos 4 }

abbrev second : Rect
second = record { x1 = negsuc 3; y1 = pos 0; x2 = pos 5; y2 = pos 9 }

clip-Covers_example :
    Covers (clip_rect (pos 99) (pos 99) second) (pos 0) (pos 5)
    ↔ (Covers second (pos 0) (pos 5) × IsPixel (pos 99) (pos 99) (pos 0) (pos 5))
clip-Covers_example =
    clip-Covers (pos 99) (pos 99) (omega arith) (omega arith) second (pos 0) (pos 5) (omega arith)

-- A rectangle that ends before the screen begins.
abbrev outside : Rect
outside = record { x1 = negsuc 9; y1 = pos 0; x2 = negsuc 4; y2 = pos 9 }

abbrev placed : Geometry
placed = record { x = pos 10; y = pos 20; width = pos 30; height = pos 40; rects = first ∷ [] }

first_two-wide : InInt32 (
    ((qws_rect_bounding_box first (second ∷ [])).x2
      -ℤ (qws_rect_bounding_box first (second ∷ [])).x1)
    +ℤ pos 1)
unfolding qws_rect_bounding_box ◌+ℤ◌ ◌-ℤ◌
first_two-wide = omega arith

first_two-high : InInt32 (
    ((qws_rect_bounding_box first (second ∷ [])).y2
      -ℤ (qws_rect_bounding_box first (second ∷ [])).y1)
    +ℤ pos 1)
unfolding qws_rect_bounding_box ◌+ℤ◌ ◌-ℤ◌
first_two-high = omega arith

update_geometry_lem_example :
    IsPlaced (qwswl_update_geometry none true placed (first ∷ second ∷ [])).0 (first ∷ second ∷ [])
update_geometry_lem_example =
    update_geometry_lem none true placed first (second ∷ []) first_two-wide first_two-high

update_surface-AllInBuffer_example :
    AllInBuffer
      (pos 30)
      (pos 40)
      (qwswl_update_surface true (pos 30) (pos 40) placed (second ∷ first ∷ []))
update_surface-AllInBuffer_example =
    update_surface-AllInBuffer true (pos 30) (pos 40) placed (second ∷ first ∷ []) (omega arith)
      (omega arith)
