-- ===== src/Tests.antt =====
-- Tests of the definitions at concrete inputs, and the theorems applied there.
mod Hosts
mod Curriculum
mod Bridge
mod Watchdog
mod Monitor
mod Handshake
mod Training
mod Action
mod Evaluation
mod Manifest
mod Robots
mod Resume
mod Comparison
