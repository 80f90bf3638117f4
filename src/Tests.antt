-- ===== src/Tests.antt =====
-- Concrete states, and the theorems at them.
mod Data
mod Messages
mod Together
mod Membership
mod Views
mod Calls
mod Logs
mod Rows
mod Order
mod Remote
mod Saved
