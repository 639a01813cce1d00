-- ===== src/Cursor.antt =====
-- The cursors: proxy/cursor.c and proxy/cursor.h, libqwsproto/qws_cursor.c and libqwsproto/qws_cursor.h.
pub mod Bitmaps
pub mod Convert
pub mod Shapes
pub mod Store
pub mod Select
pub mod Sizes
pub mod Safe
pub mod Payload
pub mod Sessions
pub mod Runs
pub mod Shown
pub mod Overflow
