-- ===== src/Onewire.antt =====
-- The component src/components/onewire: the checksums, the line protocol, the ROM search and the sensors.
pub mod Crc8
pub mod Crc16
pub mod Line
pub mod Search
pub mod Enumeration
pub mod TemperatureSensor
