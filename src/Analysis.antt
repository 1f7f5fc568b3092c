-- ===== src/Analysis.antt =====
-- forensics/analysis.py: what the engines of a group saw, and where they diverge.
pub mod Messages
pub mod Divergence
pub mod Landing
pub mod Traces
pub mod Activity
pub mod Parity
