-- ===== src/Afu.antt =====
-- drivers/fpga/dfl-afu-dma-region.c and drivers/fpga/dfl-afu-region.c: the memory of an accelerator.
pub mod Dma
pub mod Mmio
pub mod Tests
