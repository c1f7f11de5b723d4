-- ===== src/Fpga/Mgr.antt =====
-- drivers/fpga/fpga-mgr.c: the load of an image (fpga_mgr_load), from a scatter list, a buffer or a
-- firmware file, with the states of the manager.
pub mod Defs
pub mod Prepare
pub mod Load
pub mod Prepared
pub mod Outcome
pub mod Ends
pub mod Written
pub mod Tests
