-- ===== src/Tests.antt =====
-- Runs on small inputs, and the theorems at inputs that meet their hypotheses.
mod Writing
mod Pictures
mod Threads
mod Motion
mod Lifecycle
mod Client
mod Stream
mod Reading
mod Capture
mod Monitor
mod Sessions
mod Connected
mod Motions
mod Displays
