-- ===== src/Tls/Sessions.antt =====
-- The constructor of GNUTLSSession.
