-- ===== src/Wire/Event.antt =====
-- The events that the server sends (enum qws_event_type and the qws_evt_*_t structs of
-- libqwsproto/qws_proto.h), their fixed payloads and names (libqwsproto/qws_proto.c).
pub mod Names
use qwswayland.Prelude.{
  ℕ, ◌≡◌, refl, ap, List, [], ◌∷◌, Option, none, some, Bool, true, false, if◌then◌else◌, arith,
}
use qwswayland.Prelude.Int.{ℤ, pos, negsuc, eqb_ℤ, eqb_ℤ_iff}
use qwswayland.Wire.Layout.{CType, u8, u16, i32, sizeof}

pub data Event : Type 0 where
  no_event connected mouse focus key region creation property_notify : Event
  property_reply selection_clear selection_request selection_notify : Event
  max_window_rect qcop_message window_operation im_event im_query im_init embed : Event
  font screen_transform : Event

-- The value of each constant of `enum qws_event_type`.
unfoldable pub code : Event → ℕ
code no_event = 0
code connected = 1
code mouse = 2
code focus = 3
code key = 4
code region = 5
code creation = 6
code property_notify = 7
code property_reply = 8
code selection_clear = 9
code selection_request = 10
code selection_notify = 11
code max_window_rect = 12
code qcop_message = 13
code window_operation = 14
code im_event = 15
code im_query = 16
code im_init = 17
code embed = 18
code font = 19
code screen_transform = 20

unfoldable pub constants : List Event
constants =
    no_event ∷ connected ∷ mouse ∷ focus ∷ key ∷ region ∷ creation ∷ property_notify
    ∷ property_reply ∷ selection_clear ∷ selection_request ∷ selection_notify ∷ max_window_rect
    ∷ qcop_message ∷ window_operation ∷ im_event ∷ im_query ∷ im_init ∷ embed ∷ font
    ∷ screen_transform ∷ []

unfoldable pub find_code : ℤ → List Event → Option Event
unfolding code
find_code t [] = none
find_code t (c ∷ cs) = if eqb_ℤ t (pos (code c)) then some c else find_code t cs

-- The constant that a `switch` on an `int32_t` type meets; `none` is its `default`.
unfoldable pub of_type : ℤ → Option Event
unfolding find_code constants
of_type t = find_code t constants

unfoldable pub connected_members : List CType
connected_members = i32 ∷ i32 ∷ i32 ∷ i32 ∷ []

unfoldable pub mouse_members : List CType
mouse_members = i32 ∷ i32 ∷ i32 ∷ i32 ∷ i32 ∷ i32 ∷ []

unfoldable pub focus_members : List CType
focus_members = i32 ∷ i32 ∷ []

unfoldable pub key_members : List CType
key_members = i32 ∷ i32 ∷ i32 ∷ u16 ∷ u16 ∷ []

unfoldable pub region_members : List CType
region_members = i32 ∷ i32 ∷ u8 ∷ []

unfoldable pub creation_members : List CType
creation_members = i32 ∷ i32 ∷ []

unfoldable pub property_notify_members : List CType
property_notify_members = i32 ∷ i32 ∷ i32 ∷ []

unfoldable pub property_reply_members : List CType
property_reply_members = i32 ∷ i32 ∷ i32 ∷ []

unfoldable pub selection_clear_members : List CType
selection_clear_members = i32 ∷ []

unfoldable pub selection_request_members : List CType
selection_request_members = i32 ∷ i32 ∷ i32 ∷ i32 ∷ []

unfoldable pub selection_notify_members : List CType
selection_notify_members = i32 ∷ i32 ∷ i32 ∷ i32 ∷ []

unfoldable pub max_window_rect_members : List CType
max_window_rect_members = i32 ∷ i32 ∷ i32 ∷ i32 ∷ i32 ∷ []

unfoldable pub qcop_message_members : List CType
qcop_message_members = i32 ∷ i32 ∷ i32 ∷ i32 ∷ []

unfoldable pub window_operation_members : List CType
window_operation_members = i32 ∷ i32 ∷ []

unfoldable pub im_event_members : List CType
im_event_members = i32 ∷ i32 ∷ i32 ∷ []

unfoldable pub im_query_members : List CType
im_query_members = i32 ∷ i32 ∷ []

unfoldable pub im_init_members : List CType
im_init_members = i32 ∷ i32 ∷ []

unfoldable pub embed_members : List CType
embed_members = i32 ∷ i32 ∷ i32 ∷ []

unfoldable pub font_members : List CType
font_members = i32 ∷ []

unfoldable pub screen_transform_members : List CType
screen_transform_members = i32 ∷ i32 ∷ []

-- The `case` labels of `qws_event_simple_len`.
unfoldable pub len_of : Event → ℤ
unfolding sizeof connected_members creation_members embed_members focus_members font_members
    im_event_members im_init_members im_query_members key_members max_window_rect_members
    mouse_members property_notify_members property_reply_members qcop_message_members region_members
    screen_transform_members selection_clear_members selection_notify_members
    selection_request_members window_operation_members
len_of no_event = pos 0
len_of connected = pos (sizeof connected_members)
len_of mouse = pos (sizeof mouse_members)
len_of focus = pos (sizeof focus_members)
len_of key = pos (sizeof key_members)
len_of region = pos (sizeof region_members)
len_of creation = pos (sizeof creation_members)
len_of property_notify = pos (sizeof property_notify_members)
len_of property_reply = pos (sizeof property_reply_members)
len_of selection_clear = pos (sizeof selection_clear_members)
len_of selection_request = pos (sizeof selection_request_members)
len_of selection_notify = pos (sizeof selection_notify_members)
len_of max_window_rect = pos (sizeof max_window_rect_members)
len_of qcop_message = pos (sizeof qcop_message_members)
len_of window_operation = pos (sizeof window_operation_members)
len_of im_event = pos (sizeof im_event_members)
len_of im_query = pos (sizeof im_query_members)
len_of im_init = pos (sizeof im_init_members)
len_of embed = pos (sizeof embed_members)
len_of font = pos (sizeof font_members)
len_of screen_transform = pos (sizeof screen_transform_members)

unfoldable pub simple_len_or_unknown : Option Event → ℤ
unfolding len_of
simple_len_or_unknown none = negsuc 0
simple_len_or_unknown (some c) = len_of c

unfoldable pub qws_event_simple_len : ℤ → ℤ
unfolding simple_len_or_unknown of_type
qws_event_simple_len t = simple_len_or_unknown (of_type t)

-- A constant is found under its own code.
pub of_type-code : (c : Event) → of_type (pos (code c)) ≡ some c
unfolding of_type
of_type-code no_event = refl
of_type-code connected = refl
of_type-code mouse = refl
of_type-code focus = refl
of_type-code key = refl
of_type-code region = refl
of_type-code creation = refl
of_type-code property_notify = refl
of_type-code property_reply = refl
of_type-code selection_clear = refl
of_type-code selection_request = refl
of_type-code selection_notify = refl
of_type-code max_window_rect = refl
of_type-code qcop_message = refl
of_type-code window_operation = refl
of_type-code im_event = refl
of_type-code im_query = refl
of_type-code im_init = refl
of_type-code embed = refl
of_type-code font = refl
of_type-code screen_transform = refl

find_code_sound : (t : ℤ) (c : Event) (cs : List Event) → find_code t cs ≡ some c → t ≡ pos (code c)
unfolding find_code
find_code_sound t c [] h = cc
find_code_sound t c (d ∷ ds) h = ground (arith, find_code_sound t c ds, eqb_ℤ_iff t (pos (code d)))

-- Only that code finds it.
pub of_type_sound : (t : ℤ) (c : Event) → of_type t ≡ some c → t ≡ pos (code c)
unfolding of_type
of_type_sound t c h = find_code_sound t c constants h
