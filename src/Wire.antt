-- ===== src/Wire.antt =====
-- The wire protocol: libqwsproto/qws_proto.h and libqwsproto/qws_proto.c.
pub mod Bytes
pub mod Layout
pub mod Event
pub mod Command
pub mod Packet
pub mod Reader
pub mod RoundTrip
pub mod EventFactory
