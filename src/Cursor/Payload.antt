-- ===== src/Cursor/Payload.antt =====
-- The cursors that a payload of QWS_CMD_DEFINE_CURSOR defines, in proxy/cursor.c.
use qwswayland.Prelude.{
  ℕ, ◌+◌, ◌*◌, ◌^◌, ◌≤◌, ◌<◌, ◌≡◌, refl, sym, ◌∙◌, Bool, true, false, ◌||◌, some, List, ◌==◌,
  if◌then◌else◌, length, take, drop, length-take, length-drop, arith, Bool-cases, Option-cases, inl,
  inr, some-inj, subst,
}
use qwswayland.Prelude.Int.{ℤ, pos, to_word, leb_ℤ, ltb_ℤ}
use qwswayland.HashMap.{HashMap}
use qwswayland.Cursor.Bitmaps.{Bitmap, stride_of}
use qwswayland.Cursor.Store.{mul_int, plane_size, copy_bytes, store_entry, qwswl_cursor_define}
use qwswayland.Cursor.Sizes.{
  mul_comm, mul_int_lem, plane_size_lem, needed_size_lem, plane-le, le-mul,
}
use qwswayland.Cursor.Safe.{Drawable, AllDrawable}

pub copy_lem :
    (src : List ℕ) (from n : ℕ)
    → from + n ≤ length src
    → (copy_bytes src from n ≡ some (take n (drop from src)))
      × (length (take n (drop from src)) ≡ n)
copy_lem src from n h =
    (ground arith, omega (arith, length-take n (drop from src), length-drop from src))

-- The entry for a cursor with its planes in the payload.
abbrev pub entry_from : ℕ → ℕ → ℤ → ℤ → List ℕ → Bitmap
entry_from w h hot_x hot_y raw =
    let plane = h * stride_of w in
    record {
      data_plane = take plane raw;
      mask = take plane (drop plane raw);
      width = w;
      height = h;
      hot_x = hot_x;
      hot_y = hot_y;
    }

module _ (w h : ℕ) (some_width : 0 < w) (some_height : 0 < h) (small : w * h * 4 < 2 ^ 31) where
  plane_fits : h * stride_of w * 4 < 2 ^ 31
  plane_fits = omega (arith, plane-le w h some_width)

  width_fits : w * 4 < 2 ^ 31
  width_fits = omega (arith, le-mul w h some_height)

  height_fits : h * 4 < 2 ^ 31
  height_fits = omega (arith, le-mul h w some_width, mul_comm w h)

  pub plane_is : plane_size (pos w) (pos h) ≡ pos (h * stride_of w)
  plane_is =
      plane_size_lem w h (omega (arith, width_fits)) (omega (arith, height_fits))
        (omega (arith, plane_fits))

  pub planes_are : mul_int (pos (h * stride_of w)) (pos 2) ≡ pos (h * stride_of w * 2)
  planes_are =
      mul_int_lem (h * stride_of w) 2 (omega (arith, plane_fits)) (omega arith)
        (omega (arith, plane_fits))

  module _ (hot_x hot_y : ℤ) (raw : List ℕ) (enough : h * stride_of w * 2 ≤ length raw) where
    pub entry-Drawable : Drawable (entry_from w h hot_x hot_y raw)
    entry-Drawable =
        let plane = h * stride_of w in
        let (d, ld) = copy_lem raw 0 plane (omega arith) in
        let (m, lm) = copy_lem raw plane plane (omega arith) in
        record {
          planes = record { data_fits = omega (arith, ld); mask_fits = omega (arith, lm) };
          needs =
              needed_size_lem (entry_from w h hot_x hot_y raw) (omega (arith, width_fits))
                (omega (arith, height_fits)) small;
        }

module _ (cursors : HashMap Bitmap) where
  pub get-store_entry :
      (store : cursors.Map) (k j : ℕ) (e : Bitmap)
      → cursors.get (store_entry cursors store k e (cursors.get store k)) j
        ≡ (if k == j then some e else cursors.get store j)
  get-store_entry store k j e = elim (Option-cases (cursors.get store k)) [
    | inl n ↦ rw n (cursors.get-insert store k j e ∙ rw n refl)
    | inr (old, o) ↦ rw o (cursors.get-update store k j e ∙ rw o refl)
  ]

  pub store_entry-AllDrawable :
      (store : cursors.Map) (k : ℕ) (e : Bitmap)
      → AllDrawable cursors store
      → Drawable e
      → AllDrawable cursors (store_entry cursors store k e (cursors.get store k))
  store_entry-AllDrawable store k e a d j bm h = elim (Bool-cases (k == j)) [
    | inl here ↦ subst Drawable (some-inj (sym (get-store_entry store k j e ∙ rw here refl) ∙ h)) d
    | inr other ↦ a j bm (sym (get-store_entry store k j e ∙ rw other refl) ∙ h)
  ]

  pub define_stores :
      (w h : ℕ) (some_width : 0 < w) (some_height : 0 < h) (small : w * h * 4 < 2 ^ 31)
      (hot_x hot_y : ℤ) (raw : List ℕ) (enough : h * stride_of w * 2 ≤ length raw)
      (malloc_ok : ℕ → Bool) (store : cursors.Map) (id : ℤ)
      → malloc_ok (h * stride_of w) ≡ true
      → qwswl_cursor_define cursors malloc_ok store id
          (pos w)
          (pos h)
          hot_x
          hot_y
          (some raw)
          (pos (length raw))
        ≡ some (
            store_entry cursors store
              (to_word id)
              (entry_from w h hot_x hot_y raw)
              (cursors.get store (to_word id)))
  unfolding qwswl_cursor_define
  define_stores w h some_width some_height small hot_x hot_y raw enough malloc_ok store id memory =
      let plane = h * stride_of w in
      let positive : leb_ℤ (pos w) (pos 0) || leb_ℤ (pos h) (pos 0) ≡ false = ground arith in
      let long : ltb_ℤ (pos (length raw)) (pos (plane * 2)) ≡ false = ground arith in
      let (d, ld) = copy_lem raw 0 plane (omega arith) in
      let (m, lm) = copy_lem raw plane plane (omega arith) in
      rw (plane_is w h some_width some_height small, positive)
        (rw (planes_are w h some_width some_height small, long) (rw (memory, d) (rw m refl)))
