-- ===== src/Tools/Gateway/Execute/Frozen.antt =====
-- The frozen action of a confirming call (restoreFrozenAction in internal/tools/gateway.go).
