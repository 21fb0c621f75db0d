-- ===== src/Base.antt =====
-- The names that the other modules share: the libraries', passed on, and those of its children.
-- Nothing here models a file of the repository by itself.
pub mod Lists
pub mod Outcome
pub mod Loop
pub mod Fuel
pub mod Int
pub mod Json
pub mod Double
pub mod Ring
pub mod Field
pub mod Milli
pub mod Mod7
