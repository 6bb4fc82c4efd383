-- ===== src/Voice.antt =====
-- apps/kittd/src/voice.rs: wake phrases, voice segmentation and the voice pipeline.
pub mod EditDistance
pub mod Wake
pub mod Config
pub mod Segmenter
pub mod Samples
pub mod Tracker
pub mod Stt
pub mod Pipeline
pub mod Capture
pub mod Start
