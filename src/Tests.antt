-- ===== src/Tests.antt =====
-- The theorems at concrete inputs, over the arithmetics of Base/Milli and Base/Mod7, and test runs.
mod Schemes
mod Solvers
mod Fehlberg
mod Responses
mod Variants
mod Sort
mod Sample
mod Requests
mod Initial
mod Exact
mod Robertson
