-- ===== src/Cursor/Bitmaps.antt =====
-- The system cursors of libqwsproto/qws_cursor.c and libqwsproto/qws_cursor.h, and their conversion
-- to pixels. `none` is a read outside a plane or a write outside the buffer.
mod Small
mod Large
mod Larger
use qwswayland.Prelude.{
  ℕ, zero, suc, ◌+◌, ◌*◌, ◌/◌, ◌%◌, ◌^◌, Option, none, some, List, [], ◌∷◌, ◌==◌, ltb,
  if◌then◌else◌, ◌>>=◌, length, get_elem?, set,
}
use qwswayland.Prelude.Int.{ℤ, pos, negsuc}
use qwswayland.Cursor.Bitmaps.Small.{
  cur_arrow_bits, mcur_arrow_bits, cur_up_arrow_bits, mcur_up_arrow_bits, cur_cross_bits,
  mcur_cross_bits, cur_ibeam_bits, mcur_ibeam_bits, cur_ver_bits, mcur_ver_bits, cur_hor_bits,
  mcur_hor_bits, cur_bdiag_bits, mcur_bdiag_bits, cur_fdiag_bits, mcur_fdiag_bits, openhand_bits,
  openhandm_bits, closedhand_bits, closedhandm_bits, forbidden_bits, forbiddenm_bits,
}
use qwswayland.Cursor.Bitmaps.Large.{
  wait_data_bits, wait_mask_bits, hsplit_bits, hsplitm_bits, vsplit_bits, vsplitm_bits, phand_bits,
  phandm_bits,
}
use qwswayland.Cursor.Bitmaps.Larger.{
  size_all_data_bits, size_all_mask_bits, whatsthis_bits, whatsthism_bits, busy_bits, busym_bits,
}

-- qws_cursor_bitmap_t, and qwswl_cursor_entry_t of proxy/cursor.h, which has the same members. Both
-- are only made with a positive width and height.
pub record Bitmap : Type 0 where
  pub data_plane : List ℕ
  pub mask : List ℕ
  pub width : ℕ
  pub height : ℕ
  pub hot_x : ℤ
  pub hot_y : ℤ

-- An entry of the table whose data is not NULL.
abbrev pub bitmap_entry : List ℕ → List ℕ → ℕ → ℕ → ℕ → ℕ → Option Bitmap
bitmap_entry d m w h x y =
    some (record { data_plane = d; mask = m; width = w; height = h; hot_x = pos x; hot_y = pos y })

abbrev pub no_bitmap : Option Bitmap
no_bitmap = none

unfoldable pub cursor_table : List (Option Bitmap)
cursor_table =
    bitmap_entry cur_arrow_bits mcur_arrow_bits 16 16 0 0
    ∷ bitmap_entry cur_up_arrow_bits mcur_up_arrow_bits 16 16 7 0
    ∷ bitmap_entry cur_cross_bits mcur_cross_bits 16 16 7 7
    ∷ bitmap_entry wait_data_bits wait_mask_bits 32 32 15 15
    ∷ bitmap_entry cur_ibeam_bits mcur_ibeam_bits 16 16 7 7
    ∷ bitmap_entry cur_ver_bits mcur_ver_bits 16 16 7 7
    ∷ bitmap_entry cur_hor_bits mcur_hor_bits 16 16 7 7
    ∷ bitmap_entry cur_bdiag_bits mcur_bdiag_bits 16 16 7 7
    ∷ bitmap_entry cur_fdiag_bits mcur_fdiag_bits 16 16 7 7
    ∷ bitmap_entry size_all_data_bits size_all_mask_bits 32 32 15 15
    ∷ no_bitmap
    ∷ bitmap_entry vsplit_bits vsplitm_bits 32 32 15 15
    ∷ bitmap_entry hsplit_bits hsplitm_bits 32 32 15 15
    ∷ bitmap_entry phand_bits phandm_bits 32 32 0 0
    ∷ bitmap_entry forbidden_bits forbiddenm_bits 20 20 10 10
    ∷ bitmap_entry whatsthis_bits whatsthism_bits 32 32 0 0
    ∷ bitmap_entry busy_bits busym_bits 32 32 0 0
    ∷ bitmap_entry openhand_bits openhandm_bits 16 16 8 8
    ∷ bitmap_entry closedhand_bits closedhandm_bits 16 16 8 8
    ∷ []

abbrev pub entry_at : List (Option Bitmap) → ℕ → Option Bitmap
entry_at [] i = none
entry_at (e ∷ es) zero = e
entry_at (e ∷ es) (suc i) = entry_at es i

unfoldable pub qws_cursor_bitmap : ℤ → Option Bitmap
unfolding cursor_table
qws_cursor_bitmap (pos id) = entry_at cursor_table id
qws_cursor_bitmap (negsuc n) = none

-- The number of bytes in a row.
abbrev pub stride_of : ℕ → ℕ
stride_of width = (width + 7) / 8

abbrev pub bit_of : ℕ → ℕ → ℕ
bit_of byte bit_idx = byte / 2 ^ bit_idx % 2

-- Transparent, black or white, by the bits of the shape and the mask.
abbrev pub pixel_of : ℕ → ℕ → ℕ
pixel_of d m = if m == 0 then 0 else if d == 0 then 0xFFFFFFFF else 0xFF000000

unfoldable pub read_pixel : Bitmap → ℕ → ℕ → Option ℕ
read_pixel bm y x =
    let byte_idx = y * stride_of bm.width + x / 8 in
    get_elem? bm.data_plane byte_idx >>= λ d.
    get_elem? bm.mask byte_idx >>= λ m. some (pixel_of (bit_of d (x % 8)) (bit_of m (x % 8)))

unfoldable pub put_pixel : List ℕ → ℕ → ℕ → Option (List ℕ)
put_pixel argb_out i px = if ltb i (length argb_out) then some (set argb_out i px) else none

-- The rest of a row, from `x` on; the number is that of its pixels.
unfoldable pub paint_row : Bitmap → ℕ → ℕ → ℕ → List ℕ → Option (List ℕ)
unfolding read_pixel put_pixel
paint_row bm y x zero argb_out = some argb_out
paint_row bm y x (suc n) argb_out = read_pixel bm y x >>= λ px.
    put_pixel argb_out (y * bm.width + x) px >>= λ out. paint_row bm y (suc x) n out

-- The rows from `y` on.
unfoldable pub paint_rows : Bitmap → ℕ → ℕ → List ℕ → Option (List ℕ)
unfolding paint_row
paint_rows bm y zero argb_out = some argb_out
paint_rows bm y (suc n) argb_out =
    paint_row bm y 0 bm.width argb_out >>= λ out. paint_rows bm (suc y) n out

-- The inner option is the result: `none` for false, or the buffer.
unfoldable pub qws_cursor_to_argb : Bitmap → Option (List ℕ) → Option (Option (List ℕ))
unfolding paint_rows
qws_cursor_to_argb bm none = some none
qws_cursor_to_argb bm (some argb_out) =
    paint_rows bm 0 bm.height argb_out >>= λ out. some (some out)
