-- ===== src/Mq.antt =====
-- internal/mq: the names of topics on the broker.
pub mod Subject
