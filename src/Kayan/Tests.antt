-- ===== src/Kayan/Tests.antt =====
-- Runs of the service on a small shop, and the theorems at concrete inputs.
mod Shop
mod Reports
mod Pages
