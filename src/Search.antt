-- ===== src/Search.antt =====
-- src/engine/search: the modules of the search that are modelled.
pub mod Tt
pub mod History
pub mod RootPv
pub mod Sort
pub mod MovePick
