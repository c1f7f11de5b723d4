-- ===== src/Pmci.antt =====
-- drivers/mfd/intel-m10-bmc-pmci.c: the transfers to and from the flash of a card through a FIFO.
pub mod Defs
pub mod Write
pub mod Read
pub mod Tests
