-- ===== src/Fpga.antt =====
-- drivers/fpga/fpga-region.c and drivers/fpga/fpga-bridge.c: programming a region behind its bridges;
-- drivers/fpga/fpga-mgr.c: the load of an image.
pub mod Bridge
pub mod Region
pub mod Mgr
