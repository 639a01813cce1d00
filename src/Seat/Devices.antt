-- ===== src/Seat/Devices.antt =====
-- The seat's objects: the listener of the seat and of the keymap in proxy/seat.c, and where
-- proxy/lifecycle.c binds the seat and takes it down. A Wayland object is there or not; xkbcommon is
-- an argument. `none` is an assertion that fails.
pub mod Lost
use qwswayland.Prelude.{
  ℕ, Bool, true, false, ◌&&◌, ◌||◌, Option, none, some, List, [], ◌∷◌, ◌==◌, if◌then◌else◌, ◌>>=◌,
}
use qwswayland.Clipboard.{Clipboard, qwswl_clipboard_init, qwswl_clipboard_destroy}

pub record Keymaps : Type 1 where
  pub Keymap : Type 0
  pub State : Type 0
  pub from_names : Option Keymap
  pub from_string : List ℕ → Option Keymap
  pub new_state : Keymap → Option State

-- The format of a keymap; a known one has the text of the mapping, if it can be mapped.
pub data KeymapFormat : Type 0 where
  no_keymap : KeymapFormat
  xkb_v1 : Option (List ℕ) → KeymapFormat
  unknown_format : KeymapFormat

module _ (xkb : Keymaps) where
  -- The members of qwswl_state_t for the seat and its objects.
  pub record Devices : Type 0 where
    pub wl_seat : Bool
    pub wl_seat_name : ℕ
    pub wl_pointer : Bool
    pub wl_keyboard : Bool
    pub xkb_keymap : Option xkb.Keymap
    pub xkb_state : Option xkb.State
    pub clipboard : Clipboard

  -- The capabilities are the pointer and the keyboard.
  unfoldable pub seat_capabilities : Devices → Bool → Bool → Devices
  seat_capabilities s pointer keyboard = record s {
    wl_pointer = s.wl_pointer || pointer;
    wl_keyboard = s.wl_keyboard || keyboard;
  }

  abbrev pub compiled : KeymapFormat → Option xkb.Keymap
  compiled no_keymap = xkb.from_names
  compiled (xkb_v1 map_shm) = map_shm >>= λ text. xkb.from_string text
  compiled unknown_format = none

  unfoldable pub keyboard_keymap : Devices → KeymapFormat → Option Devices
  keyboard_keymap s format = compiled format >>= λ keymap. xkb.new_state keymap >>= λ state.
      some (record s { xkb_keymap = some keymap; xkb_state = some state })

  -- The branches of registry_global for wl_seat and wl_data_device_manager.
  unfoldable pub seat_global : Devices → ℕ → Devices
  unfolding qwswl_clipboard_init
  seat_global s name = record s {
    wl_seat = true;
    wl_seat_name = name;
    clipboard = qwswl_clipboard_init true s.clipboard;
  }

  unfoldable pub manager_global : Devices → Devices
  unfolding qwswl_clipboard_init
  manager_global s = record s {
    clipboard = qwswl_clipboard_init s.wl_seat (record s.clipboard { manager = true });
  }

  unfoldable pub seat_teardown : Devices → Devices
  unfolding qwswl_clipboard_destroy
  seat_teardown s = record {
    wl_seat = false;
    wl_seat_name = 0;
    wl_pointer = false;
    wl_keyboard = false;
    xkb_keymap = none;
    xkb_state = none;
    clipboard = qwswl_clipboard_destroy s.clipboard;
  }

  unfoldable pub registry_global_remove : Devices → ℕ → Devices
  unfolding seat_teardown
  registry_global_remove s name =
      if (name == s.wl_seat_name) && s.wl_seat then seat_teardown s else s
