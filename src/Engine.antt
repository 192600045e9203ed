-- ===== src/Engine.antt =====
-- The call engine (app/services.py, `TelephonyService`, and the client of app/asterisk_client.py).
pub mod Plan
pub mod World
pub mod Logic
pub mod Context
pub mod Asterisk
pub mod Notify
pub mod Dial
pub mod Legs
pub mod Quiet
pub mod Finish
pub mod Answer
pub mod Ring
pub mod Menu
pub mod Start
pub mod Events
pub mod Recovery
pub mod Service
pub mod Settled
