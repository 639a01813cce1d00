-- ===== src/Cursor/Sessions.antt =====
-- What a client's cursor commands do one after another, in proxy/cursor.c and proxy/proxy.c.
use qwswayland.Prelude.{
  ℕ, ◌*◌, ◌^◌, ◌<◌, Bool, Option, none, some, List, [], ◌∷◌, ◌++◌, ◌>>=◌, length,
}
use qwswayland.Prelude.Int.{ℤ, pos, pos_part}
use qwswayland.HashMap.{HashMap}
use qwswayland.Cursor.Bitmaps.{Bitmap}
use qwswayland.Cursor.Store.{qwswl_cursor_define}
use qwswayland.Cursor.Select.{Cursor, CursorRequest, qwswl_cursor_select}
use qwswayland.Cursor.Safe.{Ready, AllDrawable}

-- The payload of QWS_CMD_DEFINE_CURSOR, if it has one.
abbrev pub payload_len : Option (List ℕ) → ℤ
payload_len none = pos 0
payload_len (some raw) = pos (length raw)

-- QWS_CMD_DEFINE_CURSOR with its members and payload, and QWS_CMD_SELECT_CURSOR with whether the
-- buffer can then be made.
pub data CursorCommand : Type 0 where
  define : ℤ → ℤ → ℤ → ℤ → ℤ → Option (List ℕ) → CursorCommand
  select : ℤ → Bool → CursorCommand

-- The area does not overflow an `int` in bytes.
abbrev pub InRange : CursorCommand → Type 0
InRange (CursorCommand.define id width height hot_x hot_y raw) =
    pos_part width * pos_part height * 4 < 2 ^ 31
InRange (CursorCommand.select id create_ok) = Unit {0}

abbrev pub AllInRange : List CursorCommand → Type 0
AllInRange [] = Unit {0}
AllInRange (c ∷ cs) = InRange c × AllInRange cs

module _ (cursors : HashMap Bitmap) (malloc_ok : ℕ → Bool) (has_pointer : Bool) (serial : ℕ) where
  abbrev pub CursorState : Type 0
  CursorState = Cursor × cursors.Map × List CursorRequest

  unfoldable pub cursor_command : CursorState → CursorCommand → Option CursorState
  unfolding qwswl_cursor_define qwswl_cursor_select
  cursor_command (c, store, sent) (CursorCommand.define id width height hot_x hot_y raw) =
      qwswl_cursor_define cursors malloc_ok store id width height hot_x hot_y raw (payload_len raw)
      >>= λ store'. some (c, store', sent)
  cursor_command (c, store, sent) (CursorCommand.select id create_ok) =
      qwswl_cursor_select cursors has_pointer c store serial create_ok id >>= λ done.
      some (done.0, store, sent ++ done.1)

  unfoldable pub cursor_commands : CursorState → List CursorCommand → Option CursorState
  unfolding cursor_command
  cursor_commands s [] = some s
  cursor_commands s (k ∷ ks) = cursor_command s k >>= λ s'. cursor_commands s' ks

  -- The pool is mapped, and every cursor of the client fits.
  abbrev pub Good : CursorState → Type 0
  Good s = Ready s.0 × AllDrawable cursors s.1
