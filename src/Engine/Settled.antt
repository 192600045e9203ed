-- ===== src/Engine/Settled.antt =====
-- Every method of the service keeps the table of calls sound, and a call that has ended settled.
pub mod Neutral
pub mod Progress
pub mod Finish
pub mod Recordings
pub mod Answer
pub mod Events
pub mod Ring
pub mod Menu
pub mod Start
pub mod Run
pub mod Service
