-- ===== src/Tests.antt =====
-- A small catalog, on which the theorems are applied and the definitions run.
pub mod Data
pub mod Workflow
pub mod Versions
pub mod Routes
pub mod Limits
pub mod Grades
pub mod Objects
pub mod Images
pub mod Catalog
pub mod Archives
