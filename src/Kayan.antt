-- ===== src/Kayan.antt =====
-- src/kayan/: the service of the shop, its faults, service orders, followups, gallery and ratings.
pub mod Dto
pub mod Tables
pub mod History
pub mod Assets
pub mod Products
pub mod OrderViews
pub mod Orders
pub mod Cart
pub mod Faults
pub mod Services
pub mod Ownership
pub mod Steps
pub mod Conversations
pub mod Ratings
pub mod Gallery
pub mod Listings
pub mod Lifecycle
pub mod Samples
mod Tests
