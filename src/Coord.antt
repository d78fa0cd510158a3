-- ===== src/Coord.antt =====
-- internal/coord: leases on names.
pub mod Local
