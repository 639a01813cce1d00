-- ===== src/Cursor/Select.antt =====
-- The state of the cursor and its selection, in proxy/cursor.c and proxy/cursor.h. `none` is an access
-- outside a buffer. The compositor is an argument; wl_compositor and wl_shm are there.
use qwswayland.Prelude.{
  ℕ, ◌/◌, Bool, true, false, not, ◌&&◌, ◌||◌, Option, none, some, List, [], ◌∷◌, ◌++◌, ltb,
  if◌then◌else◌, ◌>>=◌, replicate,
}
use qwswayland.Prelude.Int.{ℤ, to_word}
use qwswayland.HashMap.{HashMap}
use qwswayland.Cursor.Bitmaps.{Bitmap, qws_cursor_bitmap, qws_cursor_to_argb}
use qwswayland.Cursor.Shapes.{CursorShape, WpShape, shape_of, qws_shape_to_wp}
use qwswayland.Cursor.Store.{needed_size, cursor_pool_size}

-- qwswl_cursor_t. The pixels are the 32-bit words of the mapping, of which there are a quarter of
-- `shm_size`; a buffer is its width and height; other objects are there or not.
pub record Cursor : Type 0 where
  pub shape_manager : Bool
  pub shape_device : Bool
  pub surface : Bool
  pub shm_pool : Bool
  pub shm_buffer : Option (ℕ × ℕ)
  pub pixels : Option (List ℕ)
  pub shm_fd : Bool
  pub shm_size : ℕ

-- Which of the calls succeed.
pub record Resources : Type 0 where
  pub surface_ok : Bool
  pub memfd_ok : Bool
  pub truncate_ok : Bool
  pub mmap_ok : Bool
  pub pool_ok : Bool

-- The device is made if the compositor has the protocol and the seat has a pointer.
abbrev pub initialised : Bool → Cursor → Cursor
initialised has_pointer c = record c {
  shm_fd = true;
  shm_pool = true;
  pixels = some (replicate (cursor_pool_size / 4) 0);
  shm_size = cursor_pool_size;
  shm_buffer = none;
  surface = true;
  shape_device = c.shape_device || (c.shape_manager && has_pointer);
}

-- Without a surface the answer is -1, which is true.
unfoldable pub qwswl_cursor_init : Resources → Bool → Cursor → Cursor × Bool
qwswl_cursor_init r has_pointer c =
    if not r.surface_ok
    then (record c { shm_fd = false; surface = false }, true)
    else if r.memfd_ok && (r.truncate_ok && (r.mmap_ok && r.pool_ok))
    then (initialised has_pointer c, true)
    else (record c { shm_fd = false; surface = false }, false)

unfoldable pub qwswl_cursor_shutdown : Cursor → Cursor
qwswl_cursor_shutdown c = record c {
  shape_device = false;
  shape_manager = false;
  shm_buffer = none;
  shm_pool = false;
  pixels = if ltb 0 c.shm_size then none else c.pixels;
  shm_fd = false;
  surface = false;
}

-- The requests to the compositor, with the serial of the pointer's last entry.
pub data CursorRequest : Type 0 where
  hide : ℕ → CursorRequest
  set_shape : ℕ → WpShape → CursorRequest
  destroy_buffer : CursorRequest
  present : ℕ → ℕ → CursorRequest
  set_cursor : ℕ → ℤ → ℤ → CursorRequest

abbrev pub destroyed : Option (ℕ × ℕ) → List CursorRequest
destroyed none = []
destroyed (some b) = destroy_buffer ∷ []

-- From the destruction of the previous buffer on.
abbrev pub attach_cursor : Cursor → ℕ → Bitmap → Bool → List ℕ → Cursor × List CursorRequest
attach_cursor c serial bm create_ok argb =
    if create_ok
    then (
      record c { pixels = some argb; shm_buffer = some (bm.width, bm.height) },
      destroyed c.shm_buffer
          ++ (present bm.width bm.height ∷ set_cursor serial bm.hot_x bm.hot_y ∷ []),
    )
    else (record c { pixels = some argb; shm_buffer = none }, destroyed c.shm_buffer)

-- From the size of the bitmap on.
unfoldable pub show_bitmap : Cursor → ℕ → Bitmap → Bool → Option (Cursor × List CursorRequest)
unfolding needed_size qws_cursor_to_argb
show_bitmap c serial bm create_ok =
    if ltb c.shm_size (needed_size bm)
    then some (c, [])
    else (qws_cursor_to_argb bm c.pixels >>= λ done. elim done [
      | none ↦ some (c, [])
      | some argb ↦ some (attach_cursor c serial bm create_ok argb)
    ])

-- The bitmap of a system cursor, or else the client's own.
abbrev pub or_defined : Option Bitmap → Option Bitmap → Option Bitmap
or_defined none own = own
or_defined (some bm) own = some bm

abbrev pub show_found : Cursor → ℕ → Bool → Option Bitmap → Option (Cursor × List CursorRequest)
show_found c serial create_ok none = some (c, [])
show_found c serial create_ok (some bm) = show_bitmap c serial bm create_ok

-- The shape for an id, if the protocol is there.
abbrev pub named : Bool → CursorShape → Option WpShape
named false id = none
named true id = qws_shape_to_wp id

abbrev pub is_blank : CursorShape → Bool
is_blank CursorShape.blank = true
is_blank id = false

module _ (cursors : HashMap Bitmap) where
  abbrev pub select_named :
      Cursor → cursors.Map → ℕ → Bool → ℤ → Option WpShape → Option (Cursor × List CursorRequest)
  select_named c store serial create_ok id (some shape) = some (c, set_shape serial shape ∷ [])
  select_named c store serial create_ok id none =
      show_found c serial create_ok
        (or_defined (qws_cursor_bitmap id) (cursors.get store (to_word id)))

  unfoldable pub qwswl_cursor_select :
      Bool → Cursor → cursors.Map → ℕ → Bool → ℤ → Option (Cursor × List CursorRequest)
  unfolding qws_cursor_bitmap qws_shape_to_wp shape_of show_bitmap
  qwswl_cursor_select has_pointer c store serial create_ok id =
      if not has_pointer
      then some (c, [])
      else if is_blank (shape_of id)
      then some (c, hide serial ∷ [])
      else select_named c store serial create_ok id (named c.shape_device (shape_of id))
