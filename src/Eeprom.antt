-- ===== src/Eeprom.antt =====
-- src/eeprom.cpp: persistent data in the EEPROM.
pub mod Counter
pub mod Requests
pub mod Storage
mod Tests
