-- ===== src/Tests.antt =====
-- Concrete inputs of the theorems, one module for each part of the program.
pub mod Query
pub mod Sql
pub mod Policy
pub mod Keys
pub mod Cache
pub mod Services
