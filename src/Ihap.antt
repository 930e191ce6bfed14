-- ===== src/Ihap.antt =====
-- The message framework that the bridges share (ihaplite/).
pub mod Hex
pub mod Alarm
pub mod Msg
pub mod Session
