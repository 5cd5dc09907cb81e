-- ===== src/Examples.antt =====
-- The theorems applied to concrete inputs.
mod Tt
mod History
mod RootPv
mod Board
mod Placement
mod Strings
mod Picker
mod Platform
