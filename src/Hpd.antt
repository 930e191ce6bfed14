-- ===== src/Hpd.antt =====
-- The HomePort daemon (hpbridge/hpdaemon/).
pub mod Error
pub mod Parameter
pub mod Events
pub mod Config
pub mod Services
pub mod Xml
pub mod ServerSentEvents
pub mod WebServer
pub mod HomePort
pub mod LogFile
