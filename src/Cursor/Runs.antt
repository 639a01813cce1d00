-- ===== src/Cursor/Runs.antt =====
-- Cursor commands without an overflow run without an access outside a buffer, in proxy/cursor.c.
use qwswayland.Prelude.{
  ℕ, ◌*◌, ◌^◌, ◌≤◌, ◌<◌, ◌≡◌, refl, Bool, ◌||◌, Option, none, some, List, [], ◌∷◌, ◌++◌, length,
  arith, Bool-cases, inl, inr,
}
use qwswayland.Prelude.Int.{ℤ, pos, negsuc, pos_part, to_word, leb_ℤ, ltb_ℤ}
use qwswayland.HashMap.{HashMap}
use qwswayland.Cursor.Bitmaps.{Bitmap, stride_of}
use qwswayland.Cursor.Store.{store_entry, qwswl_cursor_define}
use qwswayland.Cursor.Safe.{AllDrawable, select-Runs}
use qwswayland.Cursor.Payload.{
  entry_from, entry-Drawable, define_stores, plane_is, planes_are, store_entry-AllDrawable,
}
use qwswayland.Cursor.Sessions.{
  payload_len, CursorCommand, InRange, AllInRange, CursorState, cursor_command, cursor_commands,
  Good,
}

module _ (cursors : HashMap Bitmap) (malloc_ok : ℕ → Bool) (has_pointer : Bool) (serial : ℕ) where
  abbrev Kept : Option cursors.Map → Type 0
  Kept r = (store' : cursors.Map) × (r ≡ some store') × AllDrawable cursors store'

  define_pos-Kept :
      (store : cursors.Map) (id : ℤ) (w h : ℕ) (hot_x hot_y : ℤ) (raw : List ℕ)
      → w * h * 4 < 2 ^ 31
      → AllDrawable cursors store
      → Kept (
          qwswl_cursor_define cursors malloc_ok store id
            (pos w)
            (pos h)
            hot_x
            hot_y
            (some raw)
            (pos (length raw)))
  unfolding qwswl_cursor_define
  define_pos-Kept store id w h hot_x hot_y raw small a =
      elim (Bool-cases (leb_ℤ (pos w) (pos 0) || leb_ℤ (pos h) (pos 0))) [
        | inl empty ↦ (store, rw empty refl, a)
        | inr positive ↦
            let some_width : 0 < w = ground arith in
            let some_height : 0 < h = ground arith in
            let plane = plane_is w h some_width some_height small in
            let planes = planes_are w h some_width some_height small in
            elim (Bool-cases (ltb_ℤ (pos (length raw)) (pos (h * stride_of w * 2)))) [
              | inl short ↦ (store, rw (plane, positive) (rw (planes, short) refl), a)
              | inr long ↦ elim (Bool-cases (malloc_ok (h * stride_of w))) [
                | inr exhausted ↦
                    (store, rw (plane, positive) (rw (planes, long) (rw exhausted refl)), a)
                | inl memory ↦
                    let enough : h * stride_of w * 2 ≤ length raw = ground arith in
                    (
                      store_entry cursors store (to_word id) (entry_from w h hot_x hot_y raw)
                          (cursors.get store (to_word id)),
                      define_stores cursors w h some_width some_height small hot_x hot_y raw enough
                          malloc_ok store id memory,
                      store_entry-AllDrawable cursors store (to_word id) _ a
                          (entry-Drawable w h some_width some_height small hot_x hot_y raw enough),
                    )
              ]
            ]
      ]

  define-Kept :
      (store : cursors.Map) (id width height hot_x hot_y : ℤ) (raw : Option (List ℕ))
      → pos_part width * pos_part height * 4 < 2 ^ 31
      → AllDrawable cursors store
      → Kept (
          qwswl_cursor_define cursors malloc_ok store id width height hot_x hot_y raw
            (payload_len raw))
  unfolding qwswl_cursor_define
  define-Kept store id width height hot_x hot_y none small a = (store, refl, a)
  define-Kept store id (pos w) (pos h) hot_x hot_y (some raw) small a =
      define_pos-Kept store id w h hot_x hot_y raw small a
  define-Kept store id (negsuc w) height hot_x hot_y (some raw) small a = (store, ground arith, a)
  define-Kept store id (pos w) (negsuc h) hot_x hot_y (some raw) small a = (store, ground arith, a)

  command-Good :
      (s : CursorState cursors malloc_ok has_pointer serial) (k : CursorCommand)
      → InRange k
      → Good cursors malloc_ok has_pointer serial s
      → (s' : CursorState cursors malloc_ok has_pointer serial) × (cursor_command cursors malloc_ok
            has_pointer serial s k
          ≡ some s')
        × Good cursors malloc_ok has_pointer serial s'
  unfolding cursor_command
  command-Good (c, store, sent) (CursorCommand.define id width height hot_x hot_y raw) small
        (r, a) =
      let (store', run, a') = define-Kept store id width height hot_x hot_y raw small a in
      ((c, store', sent), rw run refl, (r, a'))
  command-Good (c, store, sent) (CursorCommand.select id create_ok) t (r, a) =
      let (c', rs, run, r') = select-Runs cursors has_pointer c store serial create_ok id r a in
      ((c', store, sent ++ rs), rw run refl, (r', a))

  -- Once the pool is mapped, and as long as every cursor in the store fits its planes and its size,
  -- any sequence of definitions and selections whose areas, in bytes, do not overflow an int runs
  -- to its end without an access outside a plane, a payload or the pool, whatever the ids, the
  -- payloads, the memory and the compositor, and this holds again afterwards.
  pub commands-Good :
      (s : CursorState cursors malloc_ok has_pointer serial) (ks : List CursorCommand)
      → AllInRange ks
      → Good cursors malloc_ok has_pointer serial s
      → (s' : CursorState cursors malloc_ok has_pointer serial) × (cursor_commands cursors malloc_ok
            has_pointer serial s ks
          ≡ some s')
        × Good cursors malloc_ok has_pointer serial s'
  unfolding cursor_commands
  commands-Good s [] t g = (s, refl, g)
  commands-Good s (k ∷ ks) (small, rest) g =
      let (s1, run, g1) = command-Good s k small g in
      let (s2, runs, g2) = commands-Good s1 ks rest g1 in (s2, rw run runs, g2)
