-- ===== src/Examples.antt =====
-- Runs of the operations on concrete inputs, where the theorems' hypotheses hold.
mod Messages
mod Properties
mod Windows
mod Regions
mod Locks
mod Rectangles
mod Altitude
mod Dispatch
mod Seat
mod Clipboard
mod Cursor
