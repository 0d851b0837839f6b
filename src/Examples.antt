-- ===== src/Examples.antt =====
-- Concrete inputs for the properties, and tests of the definitions.
mod Songs
mod Albums
mod Alerts
mod Stores
mod Recordings
mod Narration
mod Responses
mod Routes
mod Tasks
mod Images
mod Spoken
mod Presentations
mod Gateway
