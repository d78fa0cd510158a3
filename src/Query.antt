-- ===== src/Query.antt =====
-- internal/query: a structured query checked, authorized and rendered to SQL.
pub mod Ast
pub mod Authorize
pub mod Where
pub mod Build
