-- ===== src/I2c.antt =====
-- The i2c bus: its master (src/i2c_master.cpp, include/asx/i2c_master.hpp) and a port expander on it
-- (src/pca9555.cpp, include/asx/pca9555.hpp).
pub mod Master
pub mod Pca9555
mod Tests
