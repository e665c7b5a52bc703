-- ===== src/Messages/Examples.antt =====
-- A header with one key.
