-- ===== src/Zigbee.antt =====
-- The ZigBee side of the bridge (DZigbee-bridge/).
pub mod Vps
