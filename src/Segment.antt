-- ===== src/Segment.antt =====
-- segment.h and segment.c: which segments are free, which are dirty, which of their blocks are
-- valid, and how a log moves to another segment.
pub mod Dirty
pub mod Free
pub mod Pick
pub mod Prefree
pub mod Search
pub mod Sit
