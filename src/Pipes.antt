-- ===== src/Pipes.antt =====
-- pkg/pipes/pipes.go: named queries, their placeholders and the binding of values into their SQL.
pub mod Literal
pub mod Template
pub mod Bind
