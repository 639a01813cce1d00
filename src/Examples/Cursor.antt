-- ===== src/Examples/Cursor.antt =====
-- The cursors of proxy/cursor.c and libqwsproto/qws_cursor.c with small bitmaps.
use qwswayland.Prelude.{
  ℕ, ◌+◌, ◌*◌, ◌≤◌, ◌<◌, ◌≡◌, refl, Bool, true, false, none, some, List, [], ◌∷◌, length, get_elem?,
  replicate, arith,
}
use qwswayland.Prelude.Int.{pos}
use qwswayland.HashMap.{HashMap, assoc_map}
use qwswayland.Cursor.Bitmaps.{Bitmap, qws_cursor_to_argb, qws_cursor_bitmap}
use qwswayland.Cursor.Convert.{PlanesFit, pixel_at, to_argb_lem}
use qwswayland.Cursor.Store.{qwswl_cursor_define}
use qwswayland.Cursor.Select.{
  Cursor, Resources, hide, present, set_cursor, initialised, qwswl_cursor_init, qwswl_cursor_select,
  qwswl_cursor_shutdown,
}
use qwswayland.Cursor.Safe.{Ready, init-Ready}
use qwswayland.Cursor.Sessions.{CursorCommand, CursorState, Good, cursor_commands}
use qwswayland.Cursor.Runs.{commands-Good}
use qwswayland.Cursor.Shown.{payload_pixel, define_then_select}
use qwswayland.Cursor.Overflow.{overflow_faults}

abbrev cursors : HashMap Bitmap
cursors = assoc_map Bitmap

abbrev plenty : ℕ → Bool
plenty n = true

abbrev unset : Cursor
unset = record {
  shape_manager = false;
  shape_device = false;
  surface = false;
  shm_pool = false;
  shm_buffer = none;
  pixels = none;
  shm_fd = false;
  shm_size = 0;
}

abbrev all_there : Resources
all_there = record {
  surface_ok = true;
  memfd_ok = true;
  truncate_ok = true;
  mmap_ok = true;
  pool_ok = true;
}

abbrev started : Cursor
started = initialised true unset

started-Ready : Ready started
unfolding qwswl_cursor_init
started-Ready = init-Ready all_there true unset refl refl

-- Three columns and two rows.
abbrev tiny : Bitmap
tiny = record {
  data_plane = 5 ∷ 2 ∷ [];
  mask = 7 ∷ 3 ∷ [];
  width = 3;
  height = 2;
  hot_x = pos 1;
  hot_y = pos 0;
}

tiny-PlanesFit : PlanesFit tiny
tiny-PlanesFit = record { data_fits = omega arith; mask_fits = omega arith }

tiny_pixels :
    qws_cursor_to_argb tiny (some (replicate 7 1))
    ≡ some (some (0xFF000000 ∷ 0xFFFFFFFF ∷ 0xFF000000 ∷ 0xFFFFFFFF ∷ 0xFF000000 ∷ 0 ∷ 1 ∷ []))
unfolding qws_cursor_to_argb
tiny_pixels = refl

no_blank_bitmap : qws_cursor_bitmap (pos 10) ≡ none
unfolding qws_cursor_bitmap
no_blank_bitmap = refl

blank_hides :
    qwswl_cursor_select cursors true started [] 5 true (pos 10) ≡ some (started, hide 5 ∷ [])
unfolding qwswl_cursor_select
blank_hides = refl

all_released : qwswl_cursor_shutdown started ≡ record unset { shm_size = 4096 }
unfolding qwswl_cursor_shutdown
all_released = refl

to_argb_lem_example :
    (out' : List ℕ) × (qws_cursor_to_argb tiny (some (replicate 7 1)) ≡ some (some out'))
    × (length out' ≡ 7)
    × ((x y : ℕ) → x < 3 → y < 2 → get_elem? out' (y * 3 + x) ≡ some (pixel_at tiny x y))
    × ((k : ℕ) → 6 ≤ k → get_elem? out' k ≡ get_elem? (replicate 7 1) k)
to_argb_lem_example = to_argb_lem tiny tiny-PlanesFit (replicate 7 1) (omega arith)

abbrev commands : List CursorCommand
commands =
    CursorCommand.define (pos 30) (pos 3) (pos 2) (pos 1) (pos 0) (some (5 ∷ 2 ∷ 7 ∷ 3 ∷ []))
    ∷ CursorCommand.select (pos 30) true
    ∷ CursorCommand.select (pos 3) true
    ∷ []

commands-Good_example :
    (s' : CursorState cursors plenty true 5) × (cursor_commands cursors plenty true 5
        (started, [], [])
        commands
      ≡ some s')
    × Good cursors plenty true 5 s'
commands-Good_example =
    commands-Good cursors plenty true 5 (started, [], []) commands (omega arith)
      (started-Ready, λ k bm e. cc)

define_then_select_example :
    (store' : List (ℕ × Bitmap)) × (c' : Cursor) × (shown : List ℕ) × (qwswl_cursor_define cursors
        plenty []
        (pos 30)
        (pos 3)
        (pos 2)
        (pos 1)
        (pos 0)
        (some (5 ∷ 2 ∷ 7 ∷ 3 ∷ []))
        (pos 4)
      ≡ some store')
    × (qwswl_cursor_select cursors true started store' 5 true (pos 30)
        ≡ some (c', present 3 2 ∷ set_cursor 5 (pos 1) (pos 0) ∷ []))
    × (c'.pixels ≡ some shown)
    × ((x y : ℕ)
        → x < 3
        → y < 2
        → get_elem? shown (y * 3 + x) ≡ some (payload_pixel 3 2 (5 ∷ 2 ∷ 7 ∷ 3 ∷ []) x y))
define_then_select_example =
    define_then_select cursors plenty started [] 5 (pos 30) 3 2 (pos 1) (pos 0) (5 ∷ 2 ∷ 7 ∷ 3 ∷ [])
      (λ n. refl) started-Ready (omega arith) (omega arith) (omega arith) (omega arith)
      (omega arith)

overflow_faults_example :
    (store' : List (ℕ × Bitmap)) × (qwswl_cursor_define cursors plenty []
        (pos 30)
        (pos 524288)
        (pos 65536)
        (pos 0)
        (pos 0)
        (some (1 ∷ []))
        (pos 1)
      ≡ some store')
    × (qwswl_cursor_select cursors true started store' 5 true (pos 30) ≡ none)
overflow_faults_example =
    overflow_faults cursors plenty refl started [] 5 true (pos 30) 65536 65536 1 (pos 0) (pos 0)
      (1 ∷ []) started-Ready (omega arith) (omega arith) (omega arith) (omega arith) (omega arith)
