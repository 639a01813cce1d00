-- ===== src/Geometry/Placement.antt =====
-- Where qwswl_update_geometry and qwswl_move_window of proxy/window.c place a window.
use qwswayland.Prelude.{◌≡◌, refl, Bool, Option, List, [], ◌∷◌}
use qwswayland.Prelude.Int.{ℤ, pos, ◌+ℤ◌, ◌-ℤ◌, InInt32, wrap_lem, int_laws}
use qwswayland.Rect.{Rect, translate_rect, qws_rect_translate, qws_rect_bounding_box}
use qwswayland.Rect.Bounds.{
  Within, AllWithin, AllOnScreen, OnScreen, bounding_box-least, AllOnScreen-Within,
  translate-AllWithin,
}
use qwswayland.Geometry.{Geometry, qwswl_update_geometry}

-- The pixels from (x, y) on, in that many columns and rows.
abbrev pub area : ℤ → ℤ → ℤ → ℤ → Rect
area x y width height = record {
  x1 = x;
  y1 = y;
  x2 = (x +ℤ width) -ℤ pos 1;
  y2 = (y +ℤ height) -ℤ pos 1;
}

-- The area of a box is the box, and it fills its own coordinates exactly.
area-Within :
    (box b : Rect)
    → Within b box
    → Within b (area box.x1 box.y1 ((box.x2 -ℤ box.x1) +ℤ pos 1) ((box.y2 -ℤ box.y1) +ℤ pos 1))
area-Within box b h = omega (int_laws, h)

Within-area :
    (box b : Rect)
    → Within box b
    → Within (area box.x1 box.y1 ((box.x2 -ℤ box.x1) +ℤ pos 1) ((box.y2 -ℤ box.y1) +ℤ pos 1)) b
Within-area box b h = omega (int_laws, h)

AllWithin-area :
    (box : Rect) (rs : List Rect)
    → AllWithin box rs
    → AllWithin (area box.x1 box.y1 ((box.x2 -ℤ box.x1) +ℤ pos 1) ((box.y2 -ℤ box.y1) +ℤ pos 1)) rs
AllWithin-area box [] h = tt
AllWithin-area box (r ∷ rs) h = (Within-area box r h.0, AllWithin-area box rs h.1)

box-OnScreen :
    (box : Rect)
    → OnScreen
        (((box.x2 -ℤ box.x1) +ℤ pos 1) -ℤ pos 1)
        (((box.y2 -ℤ box.y1) +ℤ pos 1) -ℤ pos 1)
        (translate_rect (pos 0 -ℤ box.x1) (pos 0 -ℤ box.y1) box)
unfolding translate_rect
box-OnScreen box = omega int_laws

-- The window is placed on the least area around its rectangles.
pub record IsPlaced (g : Geometry) (rects : List Rect) : Type 0 where
  pub keeps : g.rects ≡ rects
  pub contains_all : AllWithin (area g.x g.y g.width g.height) rects
  pub least : (b : Rect) → AllWithin b rects → Within b (area g.x g.y g.width g.height)
  pub in_buffer :
      AllOnScreen
        (g.width -ℤ pos 1)
        (g.height -ℤ pos 1)
        (qws_rect_translate g.rects (pos 0 -ℤ g.x) (pos 0 -ℤ g.y))

box-IsPlaced :
    (box : Rect) (r : Rect) (rs : List Rect)
    → AllWithin box (r ∷ rs)
    → ((b : Rect) → AllWithin b (r ∷ rs) → Within b box)
    → IsPlaced
        (record {
          x = box.x1;
          y = box.y1;
          width = (box.x2 -ℤ box.x1) +ℤ pos 1;
          height = (box.y2 -ℤ box.y1) +ℤ pos 1;
          rects = r ∷ rs;
        })
        (r ∷ rs)
box-IsPlaced box r rs all least = record {
  keeps = refl;
  contains_all = AllWithin-area box (r ∷ rs) all;
  least = λ b h. area-Within box b (least b h);
  in_buffer =
      AllOnScreen-Within _ _ (translate_rect (pos 0 -ℤ box.x1) (pos 0 -ℤ box.y1) box) _
        (box-OnScreen box)
        (translate-AllWithin (pos 0 -ℤ box.x1) (pos 0 -ℤ box.y1) box (r ∷ rs) all);
}

-- An update with at least one rectangle, where the width and the height of their bounding box are
-- 32-bit integers, keeps the rectangles and places the window on the least area that contains them
-- all; moved to the window's own coordinates, they lie within a buffer of its size.
pub update_geometry_lem :
    (parent : Option Geometry) (shell : Bool) (old : Geometry) (r : Rect) (rs : List Rect)
    → InInt32 (((qws_rect_bounding_box r rs).x2 -ℤ (qws_rect_bounding_box r rs).x1) +ℤ pos 1)
    → InInt32 (((qws_rect_bounding_box r rs).y2 -ℤ (qws_rect_bounding_box r rs).y1) +ℤ pos 1)
    → IsPlaced (qwswl_update_geometry parent shell old (r ∷ rs)).0 (r ∷ rs)
unfolding qwswl_update_geometry
update_geometry_lem parent shell old r rs wide high =
    let box = qws_rect_bounding_box r rs in
    let (all, least) = bounding_box-least r rs in
    rw (wrap_lem _ wide) (rw (wrap_lem _ high) (box-IsPlaced box r rs all least))
