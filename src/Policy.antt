-- ===== src/Policy.antt =====
-- pkg/policy: the access-control policy, resolved against a token's claims.
pub mod Values
pub mod Canonical
pub mod Template
pub mod Types
pub mod Validate
pub mod Roles
pub mod Predicates
pub mod Evaluate
pub mod Columns
pub mod Numeric
pub mod RowFilter
