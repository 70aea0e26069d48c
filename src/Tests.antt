-- ===== src/Tests.antt =====
-- Concrete runs, and the theorems at concrete inputs.
mod Books
mod Exchange
mod Values
mod Strategies
mod Reports
mod Turns
mod Files
mod Rows
mod Pool
mod Consoles
