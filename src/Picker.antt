-- ===== src/Picker.antt =====
-- ludus-client/internal/sourcepicker: the terminal program in which a user picks what to install from
-- a source. `Catalog` has its data, `Model` the state and what is derived from it, `Moves` and `Toggle`
-- the actions, `Update` the event loop, and `Deps` the rows for dependencies; the rest are proofs.
pub mod Catalog
pub mod Model
pub mod Moves
pub mod Toggle
pub mod Update
pub mod Deps
pub mod Changes
pub mod Cursors
pub mod Picks
pub mod Clearing
pub mod Picking
pub mod Loop
mod Tests
