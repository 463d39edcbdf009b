-- ===== src/Common.antt =====
-- src/common: merging a patch into a document, CSV, and pages of a list.
pub mod Merge
pub mod Csv
pub mod Pages
mod Tests
