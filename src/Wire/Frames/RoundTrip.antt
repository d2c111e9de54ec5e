-- ===== src/Wire/Frames/RoundTrip.antt =====
-- Frames that one side writes and the other side reads (runtime/exec_ws.go, fakenomad/ws.go).
