-- ===== src/Market.antt =====
-- The services of src/users, src/admin, src/ratings, src/files, src/chat and src/products.
pub mod Tables
pub mod Access
pub mod Users
pub mod Views
pub mod ReadUrl
pub mod Admin
pub mod Ratings
pub mod Files
pub mod Catalogue
pub mod Chat
pub mod Effects
pub mod Versions
pub mod Growth
pub mod Calls
pub mod Revocation
pub mod Rights
pub mod Samples
mod Tests
