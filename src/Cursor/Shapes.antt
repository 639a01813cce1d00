-- ===== src/Cursor/Shapes.antt =====
-- The named shapes of proxy/cursor.c, and the cursor ids of libqwsproto/qws_proto.h.
use qwswayland.Prelude.{Option, none, some, List, [], ◌∷◌, get_or}
use qwswayland.Prelude.Int.{ℤ, pos, negsuc}

-- qws_cursor_shape_t. The ids of clients have any value.
pub data CursorShape : Type 0 where
  arrow up_arrow cross wait ibeam size_ver size_hor size_bdiag size_fdiag size_all blank :
      CursorShape
  split_v split_h pointing_hand forbidden whats_this busy open_hand closed_hand : CursorShape
  drag_copy drag_move drag_link no_shape : CursorShape

abbrev pub shapes : List CursorShape
shapes =
    arrow ∷ up_arrow ∷ cross ∷ wait ∷ ibeam ∷ size_ver ∷ size_hor ∷ size_bdiag ∷ size_fdiag
    ∷ size_all ∷ blank ∷ split_v ∷ split_h ∷ pointing_hand ∷ forbidden ∷ whats_this ∷ busy
    ∷ open_hand ∷ closed_hand ∷ drag_copy ∷ drag_move ∷ drag_link ∷ []

unfoldable pub shape_of : ℤ → CursorShape
shape_of (pos id) = get_or shapes id no_shape
shape_of (negsuc n) = no_shape

-- WP_CURSOR_SHAPE_DEVICE_V1_SHAPE_*, those that are used.
pub data WpShape : Type 0 where
  default crosshair wp_wait text ns_resize ew_resize nesw_resize nwse_resize all_scroll : WpShape
  row_resize col_resize pointer not_allowed help progress grab grabbing copy move alias : WpShape

-- `none` is the answer 0.
unfoldable pub qws_shape_to_wp : CursorShape → Option WpShape
qws_shape_to_wp arrow = some default
qws_shape_to_wp cross = some crosshair
qws_shape_to_wp wait = some wp_wait
qws_shape_to_wp ibeam = some text
qws_shape_to_wp size_ver = some ns_resize
qws_shape_to_wp size_hor = some ew_resize
qws_shape_to_wp size_bdiag = some nesw_resize
qws_shape_to_wp size_fdiag = some nwse_resize
qws_shape_to_wp size_all = some all_scroll
qws_shape_to_wp split_v = some row_resize
qws_shape_to_wp split_h = some col_resize
qws_shape_to_wp pointing_hand = some pointer
qws_shape_to_wp forbidden = some not_allowed
qws_shape_to_wp whats_this = some help
qws_shape_to_wp busy = some progress
qws_shape_to_wp open_hand = some grab
qws_shape_to_wp closed_hand = some grabbing
qws_shape_to_wp drag_copy = some copy
qws_shape_to_wp drag_move = some move
qws_shape_to_wp drag_link = some alias
qws_shape_to_wp up_arrow = none
qws_shape_to_wp blank = none
qws_shape_to_wp no_shape = none
