-- ===== src/Wire/EventFactory.antt =====
-- The server's event constructors: libqwsproto/qws_event_factory.c. A result is `none` where the code
-- returns NULL. A pointer argument is `none` for NULL; a 16-bit or 8-bit argument is its value.
pub mod Fill
pub mod Sent
use qwswayland.Prelude.{
  ℕ, ◌+◌, ◌*◌, ◌%◌, ◌^◌, Bool, true, false, ◌&&◌, Option, none, some, List, [], ◌∷◌, ◌++◌,
  if◌then◌else◌, length, take, drop,
}
use qwswayland.Prelude.Int.{ℤ, pos, ltb_ℤ, to_word}
use qwswayland.Wire.Bytes.{le_bytes}
use qwswayland.Wire.Layout.{CType, sizeof, encode}
use qwswayland.Wire.Packet.{Packet, to_size, qws_packet_alloc}
use qwswayland.Wire.Event.{
  Event, connected, mouse, focus, key, region, creation, property_notify, property_reply,
  max_window_rect, code, connected_members, mouse_members, focus_members, key_members,
  region_members, creation_members, property_notify_members, property_reply_members,
  max_window_rect_members,
}
use qwswayland.Rect.{Rect}

-- `memcpy` to the start of a buffer, which keeps what is behind.
abbrev pub overwrite : List ℕ → Option (List ℕ) → Option (List ℕ)
overwrite bytes none = none
overwrite bytes (some old) = some (bytes ++ drop (length bytes) old)

-- The writes through the struct pointer `d`, to a buffer of zeros, and the copy into `raw_data`.
abbrev pub filled : List CType → List ℕ → List ℕ → Option Packet → Option Packet
filled members values raw none = none
filled members values raw (some pkt) = some (record {
  header = pkt.header;
  simple_data = overwrite (encode members values) pkt.simple_data;
  raw_data = overwrite raw pkt.raw_data;
})

-- A rectangle as it lies in memory.
abbrev pub rect_bytes : Rect → List ℕ
rect_bytes r =
    le_bytes 4 (to_word r.x1)
    ++ (le_bytes 4 (to_word r.y1) ++ (le_bytes 4 (to_word r.x2) ++ le_bytes 4 (to_word r.y2)))

unfoldable pub rects_bytes : List Rect → List ℕ
unfolding le_bytes
rects_bytes [] = []
rects_bytes (r ∷ rs) = rect_bytes r ++ rects_bytes rs

-- The two flag bits.
abbrev pub key_flags : Bool → Bool → ℕ
key_flags is_press auto_repeat = (if is_press then 1 else 0) + (if auto_repeat then 2 else 0)

module _ (calloc_ok : ℕ → Bool) where
  unfoldable pub make_event : Event → List CType → List ℕ → ℕ → List ℕ → Option Packet
  unfolding code sizeof qws_packet_alloc
  make_event event members values raw_len raw =
      filled members values raw
        (qws_packet_alloc calloc_ok (pos (code event)) (sizeof members) raw_len)

  -- The string with its terminator.
  unfoldable pub qws_make_connected_event : ℤ → ℤ → Option (List ℕ) → Option Packet
  unfolding make_event connected_members
  qws_make_connected_event client_id server_shm_id none = none
  qws_make_connected_event client_id server_shm_id (some spec) =
      let bytes = spec ++ (0 ∷ []) in
      make_event connected connected_members
        (0 ∷ length bytes % 2 ^ 32 ∷ to_word client_id ∷ to_word server_shm_id ∷ []) (length bytes)
        bytes

  unfoldable pub qws_make_creation_event : ℤ → ℤ → Option Packet
  unfolding make_event creation_members
  qws_make_creation_event object_id count =
      make_event creation creation_members (to_word object_id ∷ to_word count ∷ []) 0 []

  -- `rects` has at least `nrects` rectangles, or is NULL.
  unfoldable pub qws_make_region_event : ℤ → ℤ → Option (List Rect) → ℤ → Option Packet
  unfolding make_event region_members rects_bytes
  qws_make_region_event window type rects nrects =
      make_event region region_members (to_word window ∷ to_word nrects ∷ to_word type % 2 ^ 8 ∷ [])
        ((to_size nrects * 16) % 2 ^ 64)
        (if ltb_ℤ (pos 0) nrects
          then (elim rects [ none ↦ [] | some rs ↦ rects_bytes (take (to_size nrects) rs) ])
          else [])

  unfoldable pub qws_make_mouse_event : ℤ → ℤ → ℤ → ℤ → ℤ → ℤ → Option Packet
  unfolding make_event mouse_members
  qws_make_mouse_event window x_root y_root state delta time_ms =
      make_event mouse mouse_members
        (to_word window
          ∷ to_word x_root
          ∷ to_word y_root
          ∷ to_word state
          ∷ to_word delta
          ∷ to_word time_ms
          ∷ [])
        0 []

  unfoldable pub qws_make_key_event : ℤ → ℕ → ℕ → ℕ → Bool → Bool → Option Packet
  unfolding make_event key_members
  qws_make_key_event window unicode keycode modifiers is_press auto_repeat =
      make_event key key_members
        (to_word window ∷ keycode ∷ modifiers ∷ unicode ∷ key_flags is_press auto_repeat ∷ []) 0 []

  unfoldable pub qws_make_focus_event : ℤ → ℤ → Option Packet
  unfolding make_event focus_members
  qws_make_focus_event window flag =
      make_event focus focus_members (to_word window ∷ to_word flag ∷ []) 0 []

  unfoldable pub qws_make_max_window_rect_event : ℤ → ℤ → ℤ → ℤ → ℤ → Option Packet
  unfolding make_event max_window_rect_members
  qws_make_max_window_rect_event window x1 y1 x2 y2 =
      make_event max_window_rect max_window_rect_members
        (to_word window ∷ to_word x1 ∷ to_word y1 ∷ to_word x2 ∷ to_word y2 ∷ []) 0 []

  unfoldable pub qws_make_property_notify : ℤ → ℤ → ℤ → Option Packet
  unfolding make_event property_notify_members
  qws_make_property_notify window property state =
      make_event property_notify property_notify_members
        (to_word window ∷ to_word property ∷ to_word state ∷ []) 0 []

  -- `data` has at least `len` bytes, or is NULL.
  unfoldable pub qws_make_property_reply : ℤ → ℤ → Option (List ℕ) → ℤ → Option Packet
  unfolding make_event property_reply_members
  qws_make_property_reply window property data_ptr len =
      make_event property_reply property_reply_members
        (to_word window ∷ to_word property ∷ to_word len ∷ [])
        (if ltb_ℤ (pos 0) len then to_size len else 0)
        (if ltb_ℤ (pos 0) len
          then (elim data_ptr [ none ↦ [] | some bytes ↦ take (to_size len) bytes ])
          else [])
