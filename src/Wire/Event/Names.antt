-- ===== src/Wire/Event/Names.antt =====
-- qws_event_type_name of libqwsproto/qws_proto.c.
use Prim.Native.String.{String}
use qwswayland.Prelude.{Option, none, some}
use qwswayland.Prelude.Int.{ℤ}
use qwswayland.Wire.Event.{
  Event, of_type, no_event, connected, mouse, focus, key, region, creation, property_notify,
  property_reply, selection_clear, selection_request, selection_notify, max_window_rect,
  qcop_message, window_operation, im_event, im_query, im_init, embed, font, screen_transform,
}

unfoldable pub name_of : Event → String
name_of no_event = "NoEvent"
name_of connected = "Connected"
name_of mouse = "Mouse"
name_of focus = "Focus"
name_of key = "Key"
name_of region = "Region"
name_of creation = "Creation"
name_of property_notify = "PropertyNotify"
name_of property_reply = "PropertyReply"
name_of selection_clear = "SelectionClear"
name_of selection_request = "SelectionRequest"
name_of selection_notify = "SelectionNotify"
name_of max_window_rect = "MaxWindowRect"
name_of qcop_message = "QCopMessage"
name_of window_operation = "WindowOperation"
name_of im_event = "IMEvent"
name_of im_query = "IMQuery"
name_of im_init = "IMInit"
name_of embed = "Embed"
name_of font = "Font"
name_of screen_transform = "ScreenTransformation"

unfoldable pub name_or_unknown : Option Event → String
unfolding name_of
name_or_unknown none = "Unknown"
name_or_unknown (some c) = name_of c

unfoldable pub qws_event_type_name : ℤ → String
unfolding name_or_unknown of_type
qws_event_type_name t = name_or_unknown (of_type t)
