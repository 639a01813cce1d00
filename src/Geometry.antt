-- ===== src/Geometry.antt =====
-- A window's geometry and the rectangles that are copied to its buffer: proxy/window.c, and
-- qwswl_geometry_t of libqwsproto/qws_proto.h. The pixel work itself is pixman's; a failed buffer
-- allocation ends the program by an assertion.
pub mod Placement
pub mod Copies
use qwswayland.Prelude.{
  ℕ, Bool, true, false, not, ◌||◌, Option, none, some, List, [], ◌∷◌, ◌++◌, if◌then◌else◌,
}
use qwswayland.Prelude.Int.{ℤ, pos, ◌+ℤ◌, ◌-ℤ◌, eqb_ℤ, wrap}
use qwswayland.Rect.{Rect, qws_rect_bounding_box, qws_rect_translate, qws_clip_rects}

-- qwswl_geometry_t; no rectangles are NULL.
pub record Geometry : Type 0 where
  pub x : ℤ
  pub y : ℤ
  pub width : ℤ
  pub height : ℤ
  pub rects : List Rect

-- What the compositor is asked for.
pub data Request : Type 0 where
  set_position : ℤ → ℤ → Request
  commit_parent : Request
  reposition : ℤ → ℤ → Request
  set_size : ℤ → ℤ → Request

-- The subsurface's position relative to the parent, whose geometry is given.
unfoldable pub position_window_relative_to_parent : Geometry → Geometry → List Request
position_window_relative_to_parent g parent =
    set_position (g.x -ℤ parent.x) (g.y -ℤ parent.y) ∷ commit_parent ∷ []

abbrev pub when_ : Bool → Request → List Request
when_ b r = if b then r ∷ [] else []

-- `x` and `y` with the sizes of the box, both corners of which belong to the window.
abbrev pub from_box : Rect → List Rect → Geometry
from_box box rects = record {
  x = box.x1;
  y = box.y1;
  width = wrap ((box.x2 -ℤ box.x1) +ℤ pos 1);
  height = wrap ((box.y2 -ℤ box.y1) +ℤ pos 1);
  rects = rects;
}

abbrev pub parent_requests : Geometry → Option Geometry → List Request
parent_requests g none = []
parent_requests g (some parent) = position_window_relative_to_parent g parent

-- The geometry afterwards and the requests; the buffer is then made or resized to that width and
-- height. `shell` tells whether the window has a Qt shell surface.
unfoldable pub qwswl_update_geometry :
    Option Geometry → Bool → Geometry → List Rect → Geometry × List Request
unfolding qws_rect_bounding_box position_window_relative_to_parent
qwswl_update_geometry parent shell old [] = (old, [])
qwswl_update_geometry parent shell old (r ∷ rs) =
    let g = from_box (qws_rect_bounding_box r rs) (r ∷ rs) in
    (
      g,
      parent_requests g parent
          ++ (if shell
              then when_ (not (eqb_ℤ old.x g.x) || not (eqb_ℤ old.y g.y)) (reposition g.x g.y)
                ++ when_ (not (eqb_ℤ old.width g.width) || not (eqb_ℤ old.height g.height))
                    (set_size g.width g.height)
              else []),
    )

-- A rectangle of pixels that is copied and reported as damaged.
pub record Copy : Type 0 where
  pub x : ℤ
  pub y : ℤ
  pub w : ℤ
  pub h : ℤ

abbrev pub copy_of : Rect → Copy
copy_of r = record { x = r.x1; y = r.y1; w = (r.x2 -ℤ r.x1) +ℤ pos 1; h = (r.y2 -ℤ r.y1) +ℤ pos 1 }

unfoldable pub copies_of : List Rect → List Copy
copies_of [] = []
copies_of (r ∷ rs) = copy_of r ∷ copies_of rs

-- The copies of the loop; `has_pixels` tells whether the client's buffer is attached, and the width
-- and height are those of the server's buffer.
unfoldable pub qwswl_update_surface : Bool → ℤ → ℤ → Geometry → List Rect → List Copy
unfolding qws_rect_translate qws_clip_rects copies_of
qwswl_update_surface has_pixels width height g rects =
    if has_pixels
    then copies_of (
        qws_clip_rects (qws_rect_translate rects (pos 0 -ℤ g.x) (pos 0 -ℤ g.y)) (width -ℤ pos 1)
          (height -ℤ pos 1))
    else []

-- The format test of the same function: premultiplied pixels pass unchanged, and otherwise the
-- opacity goes into the copy unless the compositor applies it.
unfoldable pub blit_alpha : Bool → Bool → ℕ → ℕ
blit_alpha premultiplied alpha_modifier opacity =
    if premultiplied then 255 else if alpha_modifier then 255 else opacity

-- The rectangle that a move passes on as the whole window.
unfoldable pub full_window : Geometry → Rect
full_window g = record { x1 = g.x; y1 = g.y; x2 = g.width -ℤ pos 1; y2 = g.height -ℤ pos 1 }

abbrev pub moved_copies : Bool → Bool → Geometry → List Copy
moved_copies has_surface has_pixels g =
    if has_surface
    then qwswl_update_surface has_pixels g.width g.height g (full_window g ∷ [])
    else []

-- The result, the geometry afterwards, the requests and the copies. The buffer has the new width and
-- height by then.
unfoldable pub qwswl_move_window :
    Option Geometry
    → Bool
    → Bool
    → Bool
    → Geometry
    → ℤ
    → ℤ
    → Bool × Geometry × List Request × List Copy
unfolding qwswl_update_geometry qwswl_update_surface full_window qws_rect_translate
qwswl_move_window parent shell has_surface has_pixels g dx dy = elim g.rects [
  | [] ↦ (false, g, [], [])
  | r ∷ rs ↦
      let (g', requests) =
        qwswl_update_geometry parent shell g (qws_rect_translate (r ∷ rs) dx dy) in
      (true, g', requests, moved_copies has_surface has_pixels g')
]
