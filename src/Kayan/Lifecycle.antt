-- ===== src/Kayan/Lifecycle.antt =====
-- The life of the orders, the fault reports and the service orders over any sequence of requests.
pub mod Orders
pub mod Faults
pub mod Services
