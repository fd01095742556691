-- ===== src/ConnMgr/Tests.antt =====
-- The connections start, and the one connection is closed.
