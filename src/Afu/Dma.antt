-- ===== src/Afu/Dma.antt =====
-- drivers/fpga/dfl-afu-dma-region.c: the DMA regions of an accelerator, in a red-black tree.
pub mod Region
pub mod Tree
pub mod Spaced
pub mod Search
pub mod Link
pub mod Insert
pub mod Map
pub mod Account
pub mod Balance
pub mod RoundTrip
