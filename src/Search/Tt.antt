-- ===== src/Search/Tt.antt =====
-- src/engine/search/tt.h and tt.c: the shared transposition table.
pub mod Entry
pub mod Table
pub mod Packing
pub mod Probe
pub mod Save
pub mod Declined
pub mod Clear
pub mod Hashfull
