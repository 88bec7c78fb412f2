-- ===== src/Examples.antt =====
-- Examples of the theorems at concrete inputs: spans as htraced sends them, results with and
-- without relatives, a mouse on a triangle button, and what a user types.
pub mod Data
pub mod Stage
pub mod Spans
pub mod Page
pub mod Input
pub mod Search
pub mod Form
pub mod Reify
pub mod Schedule
pub mod Server
pub mod Trace
pub mod Details
pub mod Pages
pub mod Canvas
pub mod Dragging
pub mod Layout
pub mod Zooming
