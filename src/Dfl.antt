-- ===== src/Dfl.antt =====
-- drivers/fpga/dfl.c: the core of the device feature list drivers.
pub mod Field
pub mod Param
pub mod Feature
pub mod Walk
pub mod Irq
pub mod Tests
