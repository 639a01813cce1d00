-- ===== src/Cursor/Overflow.antt =====
-- Where the sizes of a cursor overflow, in proxy/cursor.c.
use qwswayland.Prelude.{
  ℕ, zero, suc, ◌+◌, ◌*◌, ◌^◌, ◌<◌, ◌≡◌, refl, ap, ◌∙◌, Bool, true, false, ◌||◌, none, some, List,
  [], leb, ltb, if◌then◌else◌, length, arith, ==_iff,
}
use qwswayland.Prelude.Int.{ℤ, pos, to_word, leb_ℤ, ltb_ℤ}
use qwswayland.HashMap.{HashMap}
use qwswayland.Cursor.Bitmaps.{Bitmap, read_pixel, paint_row, paint_rows, qws_cursor_to_argb}
use qwswayland.Cursor.Store.{mul_int, needed_size, store_entry, qwswl_cursor_define}
use qwswayland.Cursor.Select.{Cursor, show_bitmap, qwswl_cursor_select}
use qwswayland.Cursor.Safe.{Ready}
use qwswayland.Cursor.Sizes.{plane_size-overflow, needed_size-overflow, mul_int_lem}
use qwswayland.Cursor.Payload.{get-store_entry}
use qwswayland.Cursor.Shown.{IsOwn, select_own}

-- A cursor with no bytes in its planes.
abbrev pub hollow : ℕ → ℕ → ℤ → ℤ → Bitmap
hollow w h hot_x hot_y = record {
  data_plane = [];
  mask = [];
  width = w;
  height = h;
  hot_x = hot_x;
  hot_y = hot_y;
}

hollow_faults :
    (w h : ℕ) (hot_x hot_y : ℤ) (out : List ℕ)
    → 0 < w
    → 0 < h
    → qws_cursor_to_argb (hollow w h hot_x hot_y) (some out) ≡ none
unfolding qws_cursor_to_argb paint_rows paint_row read_pixel
hollow_faults zero h hot_x hot_y out p q = absurd (omega arith)
hollow_faults (suc w) zero hot_x hot_y out p q = absurd (omega arith)
hollow_faults (suc w) (suc h) hot_x hot_y out p q = refl

module _ (cursors : HashMap Bitmap) (malloc_ok : ℕ → Bool) (memory : malloc_ok 0 ≡ true) where
  -- If malloc(0) gives a block and the pool is mapped, a client can define a cursor under an id of
  -- its own, with any payload, whose width and height make the size of a plane a positive multiple
  -- of 2^32; selecting it reads outside its planes.
  pub overflow_faults :
      (c : Cursor) (store : cursors.Map) (serial : ℕ) (create_ok : Bool) (id : ℤ) (k h m : ℕ)
      (hot_x hot_y : ℤ) (raw : List ℕ)
      → Ready c
      → IsOwn id
      → 8 * k + 7 < 2 ^ 31
      → h < 2 ^ 31
      → 0 < m
      → h * k ≡ 2 ^ 32 * m
      → (store' : cursors.Map) × (qwswl_cursor_define cursors malloc_ok store id
            (pos (8 * k))
            (pos h)
            hot_x
            hot_y
            (some raw)
            (pos (length raw))
          ≡ some store')
        × (qwswl_cursor_select cursors true c store' serial create_ok id ≡ none)
  unfolding qwswl_cursor_define show_bitmap
  overflow_faults c store serial create_ok id k h m hot_x hot_y raw r own wide high some_overflow
        whole =
      let some_width : 0 < k = grind arith in
      let some_height : 0 < h = grind arith in
      let bm = hollow (8 * k) h hot_x hot_y in
      let store' = store_entry cursors store (to_word id) bm (cursors.get store (to_word id)) in
      let there : cursors.get store' (to_word id) ≡ some bm =
        get-store_entry cursors store (to_word id) (to_word id) bm
        ∙ ap (λ b. if b then some bm else cursors.get store (to_word id))
            ((==_iff (to_word id) (to_word id)).1 refl) in
      let positive : leb_ℤ (pos (8 * k)) (pos 0) || leb_ℤ (pos h) (pos 0) ≡ false = ground arith in
      let twice : mul_int (pos 0) (pos 2) ≡ pos 0 =
        mul_int_lem 0 2 (omega arith) (omega arith) (omega arith) in
      let long : ltb_ℤ (pos (length raw)) (pos 0) ≡ false = ground arith in
      let any : leb (0 + 0) (length raw) ≡ true = ground arith in
      let room : ltb c.shm_size (needed_size bm) ≡ false =
        ground (arith, needed_size-overflow k h m wide high whole bm refl refl) in
      (
        store',
        rw (plane_size-overflow k h m wide high whole, positive)
            (rw (twice, long) (rw (memory, any) refl)),
        select_own cursors c store' serial create_ok id bm own there
            ∙ rw room (
                rw r.mapped (
                  rw (hollow_faults (8 * k) h hot_x hot_y r.buffer (omega arith) some_height)
                    refl)),
      )
