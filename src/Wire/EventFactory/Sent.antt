-- ===== src/Wire/EventFactory/Sent.antt =====
-- The calls of the constructors of libqwsproto/qws_event_factory.c, and what a receiver should read.
use qwswayland.Prelude.{ℕ, ◌<◌, ◌%◌, ◌^◌, Bool, Option, some, List, [], ◌∷◌, ◌++◌, length}
use qwswayland.Prelude.Int.{ℤ, pos, to_word}
use qwswayland.Wire.Layout.{CType}
use qwswayland.Wire.Packet.{Packet}
use qwswayland.Wire.Event.{
  Event, connected, mouse, focus, key, region, creation, property_notify, property_reply,
  max_window_rect, connected_members, mouse_members, focus_members, key_members, region_members,
  creation_members, property_notify_members, property_reply_members, max_window_rect_members,
}
use qwswayland.Rect.{Rect}
use qwswayland.Wire.EventFactory.{
  rects_bytes, key_flags, qws_make_connected_event, qws_make_creation_event, qws_make_region_event,
  qws_make_mouse_event, qws_make_key_event, qws_make_focus_event, qws_make_max_window_rect_event,
  qws_make_property_notify, qws_make_property_reply,
}

-- The calls of the constructors, with the arguments that the proxy gives them.
pub data EventCall : Type 0 where
  call_connected : ℤ → ℤ → List ℕ → EventCall
  call_creation : ℤ → ℤ → EventCall
  call_region : ℤ → ℤ → List Rect → EventCall
  call_mouse : ℤ → ℤ → ℤ → ℤ → ℤ → ℤ → EventCall
  call_key : ℤ → ℕ → ℕ → ℕ → Bool → Bool → EventCall
  call_focus : ℤ → ℤ → EventCall
  call_max_window_rect : ℤ → ℤ → ℤ → ℤ → ℤ → EventCall
  call_property_notify : ℤ → ℤ → ℤ → EventCall
  call_property_reply : ℤ → ℤ → List ℕ → EventCall

abbrev pub make : (ℕ → Bool) → EventCall → Option Packet
make ok (call_connected id shm spec) = qws_make_connected_event ok id shm (some spec)
make ok (call_creation id n) = qws_make_creation_event ok id n
make ok (call_region w t rs) = qws_make_region_event ok w t (some rs) (pos (length rs))
make ok (call_mouse w x y s d t) = qws_make_mouse_event ok w x y s d t
make ok (call_key w u k m p r) = qws_make_key_event ok w u k m p r
make ok (call_focus w f) = qws_make_focus_event ok w f
make ok (call_max_window_rect w x1 y1 x2 y2) = qws_make_max_window_rect_event ok w x1 y1 x2 y2
make ok (call_property_notify w p s) = qws_make_property_notify ok w p s
make ok (call_property_reply w p bs) = qws_make_property_reply ok w p (some bs) (pos (length bs))

-- The event of a call, its members and payload as the receiver should read them.
abbrev pub event_of : EventCall → Event
event_of (call_connected id shm spec) = connected
event_of (call_creation id n) = creation
event_of (call_region w t rs) = region
event_of (call_mouse w x y s d t) = mouse
event_of (call_key w u k m p r) = key
event_of (call_focus w f) = focus
event_of (call_max_window_rect w x1 y1 x2 y2) = max_window_rect
event_of (call_property_notify w p s) = property_notify
event_of (call_property_reply w p bs) = property_reply

unfoldable pub members_of : Event → List CType
unfolding connected_members mouse_members focus_members key_members region_members creation_members
    property_notify_members property_reply_members max_window_rect_members
members_of connected = connected_members
members_of creation = creation_members
members_of region = region_members
members_of mouse = mouse_members
members_of key = key_members
members_of focus = focus_members
members_of max_window_rect = max_window_rect_members
members_of property_notify = property_notify_members
members_of property_reply = property_reply_members
members_of _ = []

abbrev pub payload_of : EventCall → List ℕ
payload_of (call_connected id shm spec) = spec ++ (0 ∷ [])
payload_of (call_region w t rs) = rects_bytes rs
payload_of (call_property_reply w p bs) = bs
payload_of _ = []

abbrev pub values_of : EventCall → List ℕ
values_of (call_connected id shm spec) =
    0 ∷ length (spec ++ (0 ∷ [])) % 2 ^ 32 ∷ to_word id ∷ to_word shm ∷ []
values_of (call_creation id n) = to_word id ∷ to_word n ∷ []
values_of (call_region w t rs) = to_word w ∷ to_word (pos (length rs)) ∷ to_word t % 2 ^ 8 ∷ []
values_of (call_mouse w x y s d t) =
    to_word w ∷ to_word x ∷ to_word y ∷ to_word s ∷ to_word d ∷ to_word t ∷ []
values_of (call_key w u k m p r) = to_word w ∷ k ∷ m ∷ u ∷ key_flags p r ∷ []
values_of (call_focus w f) = to_word w ∷ to_word f ∷ []
values_of (call_max_window_rect w x1 y1 x2 y2) =
    to_word w ∷ to_word x1 ∷ to_word y1 ∷ to_word x2 ∷ to_word y2 ∷ []
values_of (call_property_notify w p s) = to_word w ∷ to_word p ∷ to_word s ∷ []
values_of (call_property_reply w p bs) = to_word w ∷ to_word p ∷ to_word (pos (length bs)) ∷ []

-- The arguments have the widths of their C types, and the payload fits an `int32_t`.
abbrev pub HasWidths : EventCall → Type 0
HasWidths (call_key w u k m p r) = (u < 2 ^ 16) × (k < 2 ^ 32) × (m < 2 ^ 32)
HasWidths _ = Unit
