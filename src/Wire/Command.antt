-- ===== src/Wire/Command.antt =====
-- The commands that a client sends (enum qws_command_type and the qws_cmd_*_t structs of
-- libqwsproto/qws_proto.h), their fixed payloads and names (libqwsproto/qws_proto.c).
pub mod Names
use qwswayland.Prelude.{
  ℕ, ◌≡◌, refl, ap, List, [], ◌∷◌, Option, none, some, Bool, true, false, if◌then◌else◌, arith,
}
use qwswayland.Prelude.Int.{ℤ, pos, negsuc, eqb_ℤ, eqb_ℤ_iff}
use qwswayland.Wire.Layout.{CType, u8, u16, i32, sizeof}

pub data Command : Type 0 where
  unknown create shutdown region region_move region_destroy set_property : Command
  add_property remove_property get_property set_selection_owner : Command
  convert_selection request_focus change_altitude set_opacity define_cursor : Command
  select_cursor position_cursor grab_mouse play_sound qcop_register qcop_send : Command
  region_name identify grab_keyboard repaint_region im_mouse im_update : Command
  im_response embed font screen_transform : Command

-- The value of each constant of `enum qws_command_type`.
unfoldable pub code : Command → ℕ
code unknown = 0
code create = 1
code shutdown = 2
code region = 3
code region_move = 4
code region_destroy = 5
code set_property = 6
code add_property = 7
code remove_property = 8
code get_property = 9
code set_selection_owner = 10
code convert_selection = 11
code request_focus = 12
code change_altitude = 13
code set_opacity = 14
code define_cursor = 15
code select_cursor = 16
code position_cursor = 17
code grab_mouse = 18
code play_sound = 19
code qcop_register = 20
code qcop_send = 21
code region_name = 22
code identify = 23
code grab_keyboard = 24
code repaint_region = 25
code im_mouse = 26
code im_update = 27
code im_response = 28
code embed = 29
code font = 30
code screen_transform = 31

unfoldable pub constants : List Command
constants =
    unknown ∷ create ∷ shutdown ∷ region ∷ region_move ∷ region_destroy ∷ set_property
    ∷ add_property ∷ remove_property ∷ get_property ∷ set_selection_owner ∷ convert_selection
    ∷ request_focus ∷ change_altitude ∷ set_opacity ∷ define_cursor ∷ select_cursor
    ∷ position_cursor ∷ grab_mouse ∷ play_sound ∷ qcop_register ∷ qcop_send ∷ region_name ∷ identify
    ∷ grab_keyboard ∷ repaint_region ∷ im_mouse ∷ im_update ∷ im_response ∷ embed ∷ font
    ∷ screen_transform ∷ []

unfoldable pub find_code : ℤ → List Command → Option Command
unfolding code
find_code t [] = none
find_code t (c ∷ cs) = if eqb_ℤ t (pos (code c)) then some c else find_code t cs

-- The constant that a `switch` on an `int32_t` type meets; `none` is its `default`.
unfoldable pub of_type : ℤ → Option Command
unfolding find_code constants
of_type t = find_code t constants

unfoldable pub create_members : List CType
create_members = i32 ∷ []

unfoldable pub region_request_members : List CType
region_request_members = i32 ∷ i32 ∷ i32 ∷ i32 ∷ []

unfoldable pub region_move_members : List CType
region_move_members = i32 ∷ i32 ∷ i32 ∷ []

unfoldable pub region_destroy_members : List CType
region_destroy_members = i32 ∷ []

unfoldable pub set_property_members : List CType
set_property_members = i32 ∷ i32 ∷ i32 ∷ []

unfoldable pub add_property_members : List CType
add_property_members = i32 ∷ i32 ∷ []

unfoldable pub remove_property_members : List CType
remove_property_members = i32 ∷ i32 ∷ []

unfoldable pub get_property_members : List CType
get_property_members = i32 ∷ i32 ∷ []

unfoldable pub set_selection_owner_members : List CType
set_selection_owner_members = i32 ∷ i32 ∷ i32 ∷ i32 ∷ i32 ∷ []

unfoldable pub convert_selection_members : List CType
convert_selection_members = i32 ∷ i32 ∷ i32 ∷ []

unfoldable pub request_focus_members : List CType
request_focus_members = i32 ∷ i32 ∷ []

unfoldable pub change_altitude_members : List CType
change_altitude_members = i32 ∷ i32 ∷ u8 ∷ []

unfoldable pub set_opacity_members : List CType
set_opacity_members = i32 ∷ u8 ∷ []

unfoldable pub define_cursor_members : List CType
define_cursor_members = i32 ∷ i32 ∷ i32 ∷ i32 ∷ i32 ∷ []

unfoldable pub select_cursor_members : List CType
select_cursor_members = i32 ∷ i32 ∷ []

unfoldable pub position_cursor_members : List CType
position_cursor_members = i32 ∷ i32 ∷ []

unfoldable pub grab_mouse_members : List CType
grab_mouse_members = i32 ∷ u8 ∷ []

unfoldable pub play_sound_members : List CType
play_sound_members = i32 ∷ []

unfoldable pub qcop_register_members : List CType
qcop_register_members = i32 ∷ []

unfoldable pub qcop_send_members : List CType
qcop_send_members = i32 ∷ i32 ∷ i32 ∷ []

unfoldable pub region_name_members : List CType
region_name_members = i32 ∷ i32 ∷ i32 ∷ []

unfoldable pub identify_members : List CType
identify_members = i32 ∷ i32 ∷ []

unfoldable pub grab_keyboard_members : List CType
grab_keyboard_members = i32 ∷ u8 ∷ []

unfoldable pub repaint_region_members : List CType
repaint_region_members = i32 ∷ i32 ∷ i32 ∷ i32 ∷ []

unfoldable pub im_mouse_members : List CType
im_mouse_members = i32 ∷ i32 ∷ i32 ∷ []

unfoldable pub im_update_members : List CType
im_update_members = i32 ∷ i32 ∷ i32 ∷ []

unfoldable pub im_response_members : List CType
im_response_members = i32 ∷ i32 ∷ []

unfoldable pub embed_members : List CType
embed_members = i32 ∷ i32 ∷ i32 ∷ i32 ∷ []

unfoldable pub font_members : List CType
font_members = i32 ∷ []

unfoldable pub screen_transform_members : List CType
screen_transform_members = i32 ∷ i32 ∷ []

-- The `case` labels of `qws_command_simple_len`.
unfoldable pub len_of : Command → ℤ
unfolding sizeof add_property_members change_altitude_members convert_selection_members
    create_members define_cursor_members embed_members font_members get_property_members
    grab_keyboard_members grab_mouse_members identify_members im_mouse_members im_response_members
    im_update_members play_sound_members position_cursor_members qcop_register_members
    qcop_send_members region_destroy_members region_move_members region_name_members
    region_request_members remove_property_members repaint_region_members request_focus_members
    screen_transform_members select_cursor_members set_opacity_members set_property_members
    set_selection_owner_members
len_of unknown = negsuc 0
len_of create = pos (sizeof create_members)
len_of shutdown = pos 0
len_of region = pos (sizeof region_request_members)
len_of region_move = pos (sizeof region_move_members)
len_of region_destroy = pos (sizeof region_destroy_members)
len_of set_property = pos (sizeof set_property_members)
len_of add_property = pos (sizeof add_property_members)
len_of remove_property = pos (sizeof remove_property_members)
len_of get_property = pos (sizeof get_property_members)
len_of set_selection_owner = pos (sizeof set_selection_owner_members)
len_of convert_selection = pos (sizeof convert_selection_members)
len_of request_focus = pos (sizeof request_focus_members)
len_of change_altitude = pos (sizeof change_altitude_members)
len_of set_opacity = pos (sizeof set_opacity_members)
len_of define_cursor = pos (sizeof define_cursor_members)
len_of select_cursor = pos (sizeof select_cursor_members)
len_of position_cursor = pos (sizeof position_cursor_members)
len_of grab_mouse = pos (sizeof grab_mouse_members)
len_of play_sound = pos (sizeof play_sound_members)
len_of qcop_register = pos (sizeof qcop_register_members)
len_of qcop_send = pos (sizeof qcop_send_members)
len_of region_name = pos (sizeof region_name_members)
len_of identify = pos (sizeof identify_members)
len_of grab_keyboard = pos (sizeof grab_keyboard_members)
len_of repaint_region = pos (sizeof repaint_region_members)
len_of im_mouse = pos (sizeof im_mouse_members)
len_of im_update = pos (sizeof im_update_members)
len_of im_response = pos (sizeof im_response_members)
len_of embed = pos (sizeof embed_members)
len_of font = pos (sizeof font_members)
len_of screen_transform = pos (sizeof screen_transform_members)

unfoldable pub simple_len_or_unknown : Option Command → ℤ
unfolding len_of
simple_len_or_unknown none = negsuc 0
simple_len_or_unknown (some c) = len_of c

unfoldable pub qws_command_simple_len : ℤ → ℤ
unfolding simple_len_or_unknown of_type
qws_command_simple_len t = simple_len_or_unknown (of_type t)

-- A constant is found under its own code.
pub of_type-code : (c : Command) → of_type (pos (code c)) ≡ some c
unfolding of_type
of_type-code unknown = refl
of_type-code create = refl
of_type-code shutdown = refl
of_type-code region = refl
of_type-code region_move = refl
of_type-code region_destroy = refl
of_type-code set_property = refl
of_type-code add_property = refl
of_type-code remove_property = refl
of_type-code get_property = refl
of_type-code set_selection_owner = refl
of_type-code convert_selection = refl
of_type-code request_focus = refl
of_type-code change_altitude = refl
of_type-code set_opacity = refl
of_type-code define_cursor = refl
of_type-code select_cursor = refl
of_type-code position_cursor = refl
of_type-code grab_mouse = refl
of_type-code play_sound = refl
of_type-code qcop_register = refl
of_type-code qcop_send = refl
of_type-code region_name = refl
of_type-code identify = refl
of_type-code grab_keyboard = refl
of_type-code repaint_region = refl
of_type-code im_mouse = refl
of_type-code im_update = refl
of_type-code im_response = refl
of_type-code embed = refl
of_type-code font = refl
of_type-code screen_transform = refl

find_code_sound :
    (t : ℤ) (c : Command) (cs : List Command) → find_code t cs ≡ some c → t ≡ pos (code c)
unfolding find_code
find_code_sound t c [] h = cc
find_code_sound t c (d ∷ ds) h = ground (arith, find_code_sound t c ds, eqb_ℤ_iff t (pos (code d)))

-- Only that code finds it.
pub of_type_sound : (t : ℤ) (c : Command) → of_type t ≡ some c → t ≡ pos (code c)
unfolding of_type
of_type_sound t c h = find_code_sound t c constants h
