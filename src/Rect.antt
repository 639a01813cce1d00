-- ===== src/Rect.antt =====
-- Rectangle arrays: libqwsproto/qws_rect.c, and qws_rect_t of libqwsproto/qws_proto.h. An array is a
-- list, `nrects` its length; a coordinate is an integer, which the code keeps in an `int32_t`, where
-- an overflow is undefined.
pub mod Bounds
pub mod Clip
pub mod Subtract
use qwswayland.Prelude.{
  ℕ, Bool, true, false, ◌&&◌, ◌||◌, List, [], ◌∷◌, Option, none, some, if◌then◌else◌, map,
}
use qwswayland.Prelude.Int.{ℤ, pos, ◌+ℤ◌, ltb_ℤ, leb_ℤ}

-- qws_rect_t
pub record Rect : Type 0 where
  pub x1 : ℤ
  pub y1 : ℤ
  pub x2 : ℤ
  pub y2 : ℤ

unfoldable pub translate_rect : ℤ → ℤ → Rect → Rect
translate_rect dx dy r = record {
  x1 = r.x1 +ℤ dx;
  y1 = r.y1 +ℤ dy;
  x2 = r.x2 +ℤ dx;
  y2 = r.y2 +ℤ dy;
}

unfoldable pub qws_rect_translate : List Rect → ℤ → ℤ → List Rect
unfolding translate_rect
qws_rect_translate [] dx dy = []
qws_rect_translate (r ∷ rs) dx dy = translate_rect dx dy r ∷ qws_rect_translate rs dx dy

-- The body of the loop: the box so far is widened to the next rectangle.
unfoldable pub widen : Rect → Rect → Rect
widen box r = record {
  x1 = if ltb_ℤ r.x1 box.x1 then r.x1 else box.x1;
  y1 = if ltb_ℤ r.y1 box.y1 then r.y1 else box.y1;
  x2 = if ltb_ℤ box.x2 r.x2 then r.x2 else box.x2;
  y2 = if ltb_ℤ box.y2 r.y2 then r.y2 else box.y2;
}

unfoldable pub widen_all : Rect → List Rect → Rect
unfolding widen
widen_all box [] = box
widen_all box (r ∷ rs) = widen_all (widen box r) rs

-- The code reads `rects[0]`, so the array has a first rectangle.
unfoldable pub qws_rect_bounding_box : Rect → List Rect → Rect
unfolding widen_all
qws_rect_bounding_box r rs = widen_all r rs

unfoldable pub leaves_screen : Rect → ℤ → ℤ → Bool
leaves_screen b max_x max_y =
    ltb_ℤ b.x1 (pos 0)
    || (ltb_ℤ b.y1 (pos 0)
        || (ltb_ℤ max_x b.x1
            || (ltb_ℤ max_y b.y1
                || (ltb_ℤ b.x2 (pos 0)
                    || (ltb_ℤ b.y2 (pos 0) || (ltb_ℤ max_x b.x2 || ltb_ℤ max_y b.y2))))))

-- The result, and the array afterwards.
unfoldable pub qws_rect_try_translate : List Rect → ℤ → ℤ → ℤ → ℤ → Bool × List Rect
unfolding qws_rect_translate qws_rect_bounding_box leaves_screen translate_rect
qws_rect_try_translate [] dx dy max_x max_y = (false, [])
qws_rect_try_translate (r ∷ rs) dx dy max_x max_y =
    if leaves_screen (translate_rect dx dy (qws_rect_bounding_box r rs)) max_x max_y
    then (false, r ∷ rs)
    else (true, qws_rect_translate (r ∷ rs) dx dy)

-- One coordinate: first the lower bound, then the upper one.
unfoldable pub clamp : ℤ → ℤ → ℤ
clamp v hi = let v' = if ltb_ℤ v (pos 0) then pos 0 else v in if leb_ℤ hi v' then hi else v'

-- The same with the test `x1 > max_x` that the code has for one of the four coordinates.
unfoldable pub clamp_x1 : ℤ → ℤ → ℤ
clamp_x1 v hi = let v' = if ltb_ℤ v (pos 0) then pos 0 else v in if ltb_ℤ hi v' then hi else v'

unfoldable pub clip_rect : ℤ → ℤ → Rect → Rect
unfolding clamp clamp_x1
clip_rect max_x max_y r = record {
  x1 = clamp_x1 r.x1 max_x;
  y1 = clamp r.y1 max_y;
  x2 = clamp r.x2 max_x;
  y2 = clamp r.y2 max_y;
}

unfoldable pub qws_clip_rects : List Rect → ℤ → ℤ → List Rect
unfolding clip_rect
qws_clip_rects [] max_x max_y = []
qws_clip_rects (r ∷ rs) max_x max_y = clip_rect max_x max_y r ∷ qws_clip_rects rs max_x max_y

-- `none` is NULL; `malloc_ok` tells whether the copy can be allocated.
unfoldable pub qws_rect_clone : Bool → List Rect → Option (List Rect)
qws_rect_clone malloc_ok [] = none
qws_rect_clone malloc_ok (r ∷ rs) = if malloc_ok then some (r ∷ rs) else none

unfoldable pub copy_boxes : Bool → List Rect → List Rect
copy_boxes malloc_ok [] = []
copy_boxes malloc_ok (r ∷ rs) = if malloc_ok then r ∷ rs else []

abbrev pub or_empty : Option (List Rect) → List Rect
or_empty none = []
or_empty (some rs) = rs

-- The rectangles of the result; no rectangles are NULL with `*out_n = 0`. `region_subtract` is
-- pixman's: the boxes of the difference of two regions that are given by their boxes. Where `b` is
-- empty and the clone fails, the code still reports `n_a` rectangles beside NULL; the model has no
-- rectangles there.
unfoldable pub qws_rect_subtract :
    (List Rect → List Rect → List Rect) → Bool → List Rect → List Rect → List Rect
unfolding qws_rect_clone copy_boxes
qws_rect_subtract region_subtract malloc_ok [] b = []
qws_rect_subtract region_subtract malloc_ok (r ∷ rs) [] =
    or_empty (qws_rect_clone malloc_ok (r ∷ rs))
qws_rect_subtract region_subtract malloc_ok (r ∷ rs) (b ∷ bs) =
    copy_boxes malloc_ok (region_subtract (r ∷ rs) (b ∷ bs))
