-- ===== src/Main/Discovery.antt =====
-- bridge/src/main.rs: a second process finds the bridge that runs.
