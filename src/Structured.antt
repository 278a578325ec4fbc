-- ===== src/Structured.antt =====
-- include/ghex/structured: patterns and halos of structured grids.
pub mod Space
pub mod Regular
pub mod Pattern
pub mod RmaRange
pub mod FieldUtils
