-- ===== src/Chsql.antt =====
-- pkg/chsql: quoting of identifiers, and the reading of SQL text.
pub mod Quote
pub mod Scan
pub mod Blank
pub mod Mutation
pub mod Opaque
