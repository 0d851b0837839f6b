-- ===== src/Edge.antt =====
-- apps/edge: the process that speaks with the user's device.
pub mod Spoken
pub mod Recorder
pub mod Presentation
