-- ===== src/Wire/Command/Names.antt =====
-- qws_command_type_name of libqwsproto/qws_proto.c.
use Prim.Native.String.{String}
use qwswayland.Prelude.{Option, none, some}
use qwswayland.Prelude.Int.{ℤ}
use qwswayland.Wire.Command.{
  Command, of_type, unknown, create, shutdown, region, region_move, region_destroy, set_property,
  add_property, remove_property, get_property, set_selection_owner, convert_selection,
  request_focus, change_altitude, set_opacity, define_cursor, select_cursor, position_cursor,
  grab_mouse, play_sound, qcop_register, qcop_send, region_name, identify, grab_keyboard,
  repaint_region, im_mouse, im_update, im_response, embed, font, screen_transform,
}

unfoldable pub name_of : Command → String
name_of unknown = "Unknown"
name_of create = "Create"
name_of shutdown = "Shutdown"
name_of region = "Region"
name_of region_move = "RegionMove"
name_of region_destroy = "RegionDestroy"
name_of set_property = "SetProperty"
name_of add_property = "AddProperty"
name_of remove_property = "RemoveProperty"
name_of get_property = "GetProperty"
name_of set_selection_owner = "SetSelectionOwner"
name_of convert_selection = "ConvertSelection"
name_of request_focus = "RequestFocus"
name_of change_altitude = "ChangeAltitude"
name_of set_opacity = "SetOpacity"
name_of define_cursor = "DefineCursor"
name_of select_cursor = "SelectCursor"
name_of position_cursor = "PositionCursor"
name_of grab_mouse = "GrabMouse"
name_of play_sound = "PlaySound"
name_of qcop_register = "QCopRegisterChannel"
name_of qcop_send = "QCopSend"
name_of region_name = "RegionName"
name_of identify = "Identify"
name_of grab_keyboard = "GrabKeyboard"
name_of repaint_region = "RepaintRegion"
name_of im_mouse = "IMMouse"
name_of im_update = "IMUpdate"
name_of im_response = "IMResponse"
name_of embed = "Embed"
name_of font = "Font"
name_of screen_transform = "ScreenTransform"

unfoldable pub name_or_unknown : Option Command → String
unfolding name_of
name_or_unknown none = "Unknown"
name_or_unknown (some c) = name_of c

unfoldable pub qws_command_type_name : ℤ → String
unfolding name_or_unknown of_type
qws_command_type_name t = name_or_unknown (of_type t)
