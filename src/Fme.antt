-- ===== src/Fme.antt =====
-- The management engine of an FPGA card: drivers/fpga/dfl-fme-mgr.c.
pub mod Mgr
