-- ===== src/Cursor/Store.antt =====
-- The cursors that clients define, in proxy/cursor.c. The sizes are computed in `int`, where an
-- overflow is undefined; it wraps around here, as compiled code does. `none` is a read outside the
-- payload. The memory is an argument.
use qwswayland.Prelude.{
  ℕ, ◌+◌, ◌-◌, ◌*◌, ◌/◌, ◌%◌, ◌^◌, Bool, not, ◌||◌, Option, none, some, List, ◌==◌, leb,
  if◌then◌else◌, ◌>>=◌, length, take, drop,
}
use qwswayland.Prelude.Int.{ℤ, pos, negsuc, pos_part, ◌+ℤ◌, ltb_ℤ, leb_ℤ, to_word, of_word}
use qwswayland.Wire.Packet.{to_size}
use qwswayland.HashMap.{HashMap}
use qwswayland.Cursor.Bitmaps.{Bitmap}

-- `int` arithmetic; the quotient is cut towards zero.
abbrev pub mul_int : ℤ → ℤ → ℤ
mul_int a b = of_word (to_word a * to_word b % 2 ^ 32)

abbrev pub add_int : ℤ → ℤ → ℤ
add_int a b = of_word (to_word (a +ℤ b))

abbrev pub eighth : ℤ → ℤ
eighth (pos n) = pos (n / 8)
eighth (negsuc n) = let q = (n + 1) / 8 in if q == 0 then pos 0 else negsuc (q - 1)

-- The bytes of a plane.
unfoldable pub plane_size : ℤ → ℤ → ℤ
plane_size width height = mul_int height (eighth (add_int width (pos 7)))

abbrev pub copy_bytes : List ℕ → ℕ → ℕ → Option (List ℕ)
copy_bytes src from n = if leb (from + n) (length src) then some (take n (drop from src)) else none

-- The bytes that the cursor's surface needs, as the code computes them.
unfoldable pub needed_size : Bitmap → ℕ
needed_size bm = to_size (mul_int (mul_int (pos bm.width) (pos bm.height)) (pos 4))

abbrev pub cursor_pool_size : ℕ
cursor_pool_size = 32 * 32 * 4

module _ (cursors : HashMap Bitmap) where
  -- An entry that is there is written over.
  abbrev pub store_entry : cursors.Map → ℕ → Bitmap → Option Bitmap → cursors.Map
  store_entry store id entry none = cursors.insert store id entry
  store_entry store id entry (some old) = cursors.update store id entry

  unfoldable pub qwswl_cursor_store_drop_all : cursors.Map → cursors.Map
  qwswl_cursor_store_drop_all store = cursors.empty

  unfoldable pub qwswl_cursor_define :
      (ℕ → Bool) → cursors.Map → ℤ → ℤ → ℤ → ℤ → ℤ → Option (List ℕ) → ℤ → Option cursors.Map
  unfolding plane_size
  qwswl_cursor_define malloc_ok store id width height hot_x hot_y none raw_len = some store
  qwswl_cursor_define malloc_ok store id width height hot_x hot_y (some raw_data) raw_len =
      let plane = plane_size width height in
      let bytes = to_size plane in
      if leb_ℤ width (pos 0) || leb_ℤ height (pos 0)
      then some store
      else if ltb_ℤ raw_len (mul_int plane (pos 2))
      then some store
      else if not (malloc_ok bytes)
      then some store
      else (copy_bytes raw_data 0 bytes >>= λ d. copy_bytes raw_data bytes bytes >>= λ m.
          let entry : Bitmap = record {
            data_plane = d;
            mask = m;
            width = pos_part width;
            height = pos_part height;
            hot_x = hot_x;
            hot_y = hot_y;
          } in
          some (store_entry store (to_word id) entry (cursors.get store (to_word id))))
