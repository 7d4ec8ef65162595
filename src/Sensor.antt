-- ===== src/Sensor.antt =====
-- packages/modules/sensor_chimera/src/seclab_sensor_chimera: the honeypot.
pub mod Body
pub mod Limited
pub mod Geoip
pub mod Cache
pub mod Fresh
pub mod App
pub mod Trap
