-- ===== src/Lib.antt =====
-- QWSWayland runs applications of Qt 4's embedded window system (QWS) on a Wayland compositor. This
-- library models the parts of it that decide what such an application sees: the wire protocol between
-- a client and the proxy, the proxy's state for clients, windows and properties, and the locks that
-- both sides share. A client's bytes reach the packet reader (qws_reader_feed), the packets go to the
-- command handlers of the proxy, these change properties, windows and regions, and the events that
-- they cause are made by the event constructors, serialised and written back.
--
-- The files and what they model:
--
-- Wire: libqwsproto/qws_proto.c, qws_proto.h and qws_event_factory.c.
--   Wire.Bytes, Wire.Layout: little-endian integers, and C structs as member types with natural
--   alignment. Wire.Event, Wire.Command: the type enumerations, the fixed-size structs, and
--   qws_event_simple_len, qws_command_simple_len; their children Names have the names of the types.
--   Wire.Packet: qws_packet_alloc, qws_packet_wire_size, qws_packet_serialize. Wire.Reader:
--   qws_reader_init, qws_reader_reset, qws_reader_feed. Wire.Reader.Parse is the specification, a
--   parser of whole streams; Phases, Loop, Cuts, Feed and Rest relate the incremental reader to it,
--   Stream adds the read loop of qwswl_handle_client_data (proxy/proxy.c), for any sequence of reads.
--   Wire.RoundTrip: serialising and reading back. Wire.EventFactory: the constructors of events.
-- Rect: libqwsproto/qws_rect.c. Rect.Bounds, Rect.Clip and Rect.Subtract are its properties, in the
--   wire format's reading of a rectangle (both corners covered) and in pixman's (half open).
-- Props: proxy/property_store.c. Props.Store is what a stored value is and what the modes mean,
--   Props.Laws and Props.Entries relate the operations to a map from keys to byte strings.
-- Client: proxy/client.c. The window stack and the requests that reorder the compositor's surfaces;
--   Client.Stack, Client.Order and Client.Reorder are their properties. Client.Regions is
--   qwswl_update_regions, with its events in Client.Regions.Events, Client.Windows the ids, the window
--   map and the subscriptions.
-- Lock: libqwsproto/qws_lock.c with System V semaphores. Lock.Nesting is one process, Lock.Exclusion
--   and Lock.ReadWrite are all interleavings of the calls of any number of processes, as step
--   relations.
-- Dispatch: the property commands of qwswl_dispatch_command in proxy/proxy.c, on a server with any
--   number of clients, and qws_is_synchronous_command; Dispatch.Notices is what clients hear of them.
--   Dispatch.Identify: the identification of a client and the creation of ids; Dispatch.Identify.Ids:
--   the ids that it gets; Dispatch.Identify.Screen: the size of the screen that it is told.
--   Dispatch.Altitude: the change of altitude; Dispatch.Altitude.Sent: its events;
--   Dispatch.Altitude.Found and Room: the window stays in the stack, and the arrays of the reordering
--   have room for its windows.
-- Clipboard: proxy/clipboard.c and libqwsproto/qws_unicode.c. Clipboard.Reads is what clients read after
--   a client has set the clipboard, Clipboard.Receives after another program has, Clipboard.Sends the
--   writing of the text, Clipboard.Limits what other programs get.
-- Cursor: proxy/cursor.c and libqwsproto/qws_cursor.c. Cursor.Bitmaps is the table of system cursors and
--   their conversion to pixels, Cursor.Shapes the named shapes, Cursor.Store the clients' cursors,
--   Cursor.Select the cursor's start, selection and end, Cursor.Sessions the commands of proxy/proxy.c.
--   Cursor.Convert, Safe, Runs and Shown are what holds where no size overflows, Cursor.Overflow where
--   one does; Cursor.Sizes is the arithmetic and Cursor.Payload the cursor in a payload.
-- Seat: proxy/seat.c. Seat.Keys is the translation of keysyms, Seat.Pointer and Seat.Keyboard are the
--   handlers; Seat.Pointer.Positions is the position as the clients know it, Seat.Pointer.Limits where
--   they are told less, Seat.Keyboard.Held the key repeat against the keys that are held. Seat.Devices
--   is the binding and the removal of the seat (proxy/lifecycle.c), with Seat.Devices.Lost.
-- Focus: the focused window, from proxy/window.c and proxy/proxy.c; Focus.Seen is each client's view.
-- Geometry: the placing, moving and copying of windows in proxy/window.c.
-- HashMap: the interface of the hash maps of the STC library, as records of operations and laws, with
--   an association list that meets it. Examples: concrete runs. Prelude: shared names and lemmas.
--
-- State is passed explicitly, NULL is `none`, and a failed allocation is an explicit argument: a test
-- that tells for a size whether so much memory can be had. An assertion that fails is `none` or an
-- effect of its own. `int32_t` values are integers; the ids that a client is given and the sizes of
-- windows and of cursors, which a client can make overflow, wrap around, a property value whose length
-- overflows is one for which there is no memory, and elsewhere no overflow is modelled. The wire's bit
-- patterns are numbers below 2^32, and `size_t` keeps its 64 bits where the code converts. The reader's
-- loop runs on four rounds of fuel, one for each of the three parts of a packet and one to spare, and
-- the read loop of the proxy on the length of the chunk, since every round consumes a byte. pixman's
-- region subtraction, the iconv conversion and the compositor are arguments, with their documented
-- behaviour as hypotheses.
--
-- Not modelled: the Wayland side of buffers, the start and the event loop of the proxy, sockets and
-- shared memory, tracing and packet capture, the trace proxy, the framebuffer interposer, and the parts
-- that are not written in C.
pub mod Prelude
pub mod Wire
pub mod Rect
pub mod Seat
pub mod HashMap
pub mod Props
pub mod Client
pub mod Lock
pub mod Geometry
pub mod Dispatch
pub mod Clipboard
pub mod Cursor
pub mod Focus
pub mod Examples
