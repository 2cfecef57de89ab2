-- ===== src/Helpers.antt =====
-- src/common/helpers/: pagination and the text of a LIKE pattern.
pub mod Pagination
