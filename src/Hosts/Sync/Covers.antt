-- ===== src/Hosts/Sync/Covers.antt =====
-- The services with a row after a synchronisation.
