-- ===== src/Bigdir/Tests.antt =====
-- The hundred and fiftieth user of a domain.
