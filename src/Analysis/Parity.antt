-- ===== src/Analysis/Parity.antt =====
-- The landing page's pass over the rows of all groups against the detail page's traces of one.
pub mod Messages
pub mod Rows
pub mod Groups
