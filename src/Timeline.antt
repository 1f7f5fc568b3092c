-- ===== src/Timeline.antt =====
-- The timeline of a group: `timeline_items` and its helpers of forensics/analysis.py.
pub mod Summary
pub mod Items
pub mod Item
pub mod Color
pub mod Unique
