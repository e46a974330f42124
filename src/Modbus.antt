-- ===== src/Modbus.antt =====
-- The Modbus RTU protocol: the checksum of src/modbus_rtu.cpp, and the state machine of the slave of
-- include/asx/modbus_rtu_slave.hpp.
pub mod Crc
pub mod Machine
pub mod Slave
mod Tests
