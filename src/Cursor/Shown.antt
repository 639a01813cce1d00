-- ===== src/Cursor/Shown.antt =====
-- What is shown for a cursor that a client has defined, in proxy/cursor.c.
use qwswayland.Prelude.{
  ℕ, zero, suc, ◌+◌, ◌*◌, ◌/◌, ◌%◌, ◌≤◌, ◌<◌, ◌≡◌, refl, ap, ap₂, ◌∙◌, Bool, true, false, Option,
  none, some, List, [], ◌∷◌, ◌++◌, ltb, if◌then◌else◌, length, take, drop, get_or, get_elem?, arith,
  ==_iff,
}
use qwswayland.Prelude.Int.{ℤ, pos, negsuc, to_word}
use qwswayland.HashMap.{HashMap}
use qwswayland.Cursor.Bitmaps.{Bitmap, stride_of, entry_at, cursor_table, qws_cursor_bitmap}
use qwswayland.Cursor.Convert.{bit, colour, pixel_at, to_argb_lem, in_plane}
use qwswayland.Cursor.Shapes.{shapes, no_shape, shape_of, qws_shape_to_wp}
use qwswayland.Cursor.Store.{needed_size, store_entry, qwswl_cursor_define}
use qwswayland.Cursor.Select.{
  Cursor, present, set_cursor, destroyed, show_bitmap, named, qwswl_cursor_select,
}
use qwswayland.Cursor.Safe.{Ready}
use qwswayland.Cursor.Sizes.{mul_comm}
use qwswayland.Cursor.Payload.{entry_from, entry-Drawable, define_stores, get-store_entry}

-- The ids that no system cursor has.
abbrev pub IsOwn : ℤ → Type 0
IsOwn (pos id) = 22 ≤ id
IsOwn (negsuc n) = Unit {0}

get_or-past {ℓ} : {A : Type ℓ} (xs : List A) (i : ℕ) (d : A) → length xs ≤ i → get_or xs i d ≡ d
get_or-past [] i d h = refl
get_or-past (x ∷ xs) zero d h = absurd (omega arith)
get_or-past (x ∷ xs) (suc i) d h = get_or-past xs i d (omega arith)

entry_at-past : (es : List (Option Bitmap)) (i : ℕ) → length es ≤ i → entry_at es i ≡ none
entry_at-past [] i h = refl
entry_at-past (e ∷ es) zero h = absurd (omega arith)
entry_at-past (e ∷ es) (suc i) h = entry_at-past es i (omega arith)

get_or-take {ℓ} :
    {A : Type ℓ} (n i : ℕ) (xs : List A) (d : A) → i < n → get_or (take n xs) i d ≡ get_or xs i d
get_or-take zero i xs d h = absurd (omega arith)
get_or-take (suc n) i [] d h = refl
get_or-take (suc n) zero (x ∷ xs) d h = refl
get_or-take (suc n) (suc i) (x ∷ xs) d h = get_or-take n i xs d (omega arith)

get_or-drop {ℓ} :
    {A : Type ℓ} (n i : ℕ) (xs : List A) (d : A) → get_or (drop n xs) i d ≡ get_or xs (n + i) d
get_or-drop zero i xs d = ap (λ (t : ℕ). get_or xs t d) (omega arith)
get_or-drop (suc n) i [] d = refl
get_or-drop (suc n) i (x ∷ xs) d =
    get_or-drop n i xs d
    ∙ ap (λ (t : ℕ). get_or (x ∷ xs) t d) (let e : suc (n + i) ≡ suc n + i = omega arith in e)

own_shape : (id : ℤ) → IsOwn id → shape_of id ≡ no_shape
unfolding shape_of
own_shape (pos id) h = get_or-past shapes id no_shape (omega arith)
own_shape (negsuc n) h = refl

own_bitmap : (id : ℤ) → IsOwn id → qws_cursor_bitmap id ≡ none
unfolding qws_cursor_bitmap cursor_table
own_bitmap (pos id) h = entry_at-past cursor_table id (omega arith)
own_bitmap (negsuc n) h = refl

unnamed : (device : Bool) → named device no_shape ≡ none
unfolding qws_shape_to_wp
unnamed true = refl
unnamed false = refl

-- The pixel in a column and a row of a payload with both planes.
abbrev pub payload_pixel : ℕ → ℕ → List ℕ → ℕ → ℕ → ℕ
payload_pixel w h raw x y =
    let stride = (w + 7) / 8 in
    let byte_idx = y * stride + x / 8 in
    colour (bit (get_or raw (h * stride + byte_idx) 0) (x % 8))
      (bit (get_or raw byte_idx 0) (x % 8))

pixel-payload :
    (w h : ℕ) (hot_x hot_y : ℤ) (raw : List ℕ) (x y : ℕ)
    → x < w
    → y < h
    → pixel_at (entry_from w h hot_x hot_y raw) x y ≡ payload_pixel w h raw x y
pixel-payload w h hot_x hot_y raw x y p q =
    let plane = h * stride_of w in
    let byte_idx = y * stride_of w + x / 8 in
    let inside : byte_idx < plane = in_plane h (stride_of w) y (x / 8) q (omega arith) in
    ap₂ (λ (d m : ℕ). colour (bit m (x % 8)) (bit d (x % 8)))
      (get_or-take plane byte_idx raw 0 inside)
      (get_or-take plane byte_idx (drop plane raw) 0 inside ∙ get_or-drop plane byte_idx raw 0)

module _ (cursors : HashMap Bitmap) where
  pub select_own :
      (c : Cursor) (store : cursors.Map) (serial : ℕ) (create_ok : Bool) (id : ℤ) (bm : Bitmap)
      → IsOwn id
      → cursors.get store (to_word id) ≡ some bm
      → qwswl_cursor_select cursors true c store serial create_ok id
        ≡ show_bitmap c serial bm create_ok
  unfolding qwswl_cursor_select
  select_own c store serial create_ok id bm own e =
      rw (own_shape id own) (rw (unnamed c.shape_device) (rw (own_bitmap id own, e) refl))

  -- With memory, a pointer and a mapped pool, a cursor of at most 1024 pixels that a client defines
  -- under an id of its own, with both planes in the payload, is shown when it is selected, with its
  -- size and hot spot, in the place of the previous buffer, and every pixel of the cursor is the
  -- one that the bits of the payload say: transparent outside the mask, and inside it black for a
  -- set bit of the shape and white for a clear one.
  pub define_then_select :
      (malloc_ok : ℕ → Bool) (c : Cursor) (store : cursors.Map) (serial : ℕ) (id : ℤ) (w h : ℕ)
      (hot_x hot_y : ℤ) (raw : List ℕ)
      → ((n : ℕ) → malloc_ok n ≡ true)
      → Ready c
      → IsOwn id
      → 0 < w
      → 0 < h
      → w * h ≤ 1024
      → h * stride_of w * 2 ≤ length raw
      → (store' : cursors.Map) × (c' : Cursor) × (shown : List ℕ) × (qwswl_cursor_define cursors
            malloc_ok store id
            (pos w)
            (pos h)
            hot_x
            hot_y
            (some raw)
            (pos (length raw))
          ≡ some store')
        × (qwswl_cursor_select cursors true c store' serial true id
            ≡ some (c', destroyed c.shm_buffer ++ present w h ∷ set_cursor serial hot_x hot_y ∷ []))
        × (c'.pixels ≡ some shown)
        × ((x y : ℕ)
            → x < w
            → y < h
            → get_elem? shown (y * w + x) ≡ some (payload_pixel w h raw x y))
  unfolding show_bitmap
  define_then_select malloc_ok c store serial id w h hot_x hot_y raw memory r own some_width
        some_height small enough =
      let bm = entry_from w h hot_x hot_y raw in
      let fits = entry-Drawable w h some_width some_height (omega arith) hot_x hot_y raw enough in
      let (out, run, len, painted, kept) =
        to_argb_lem bm fits.planes r.buffer (omega (arith, mul_comm h w, r.room)) in
      let store' = store_entry cursors store (to_word id) bm (cursors.get store (to_word id)) in
      let there : cursors.get store' (to_word id) ≡ some bm =
        get-store_entry cursors store (to_word id) (to_word id) bm
        ∙ ap (λ b. if b then some bm else cursors.get store (to_word id))
            ((==_iff (to_word id) (to_word id)).1 refl) in
      let room : ltb c.shm_size (needed_size bm) ≡ false = ground (arith, fits.needs, r.size) in
      (
        store',
        record c { pixels = some out; shm_buffer = some (w, h) },
        out,
        define_stores cursors w h some_width some_height (omega arith) hot_x hot_y raw enough
            malloc_ok store id (memory _),
        select_own c store' serial true id bm own there ∙ rw room (rw r.mapped (rw run refl)),
        refl,
        λ x y p q. painted x y p q ∙ ap some (pixel-payload w h hot_x hot_y raw x y p q),
      )
