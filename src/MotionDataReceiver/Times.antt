-- ===== src/MotionDataReceiver/Times.antt =====
-- MotionDataReceiver.java behind motion_server.c: the numbers that the client takes for the times.
