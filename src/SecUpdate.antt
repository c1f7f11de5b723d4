-- ===== src/SecUpdate.antt =====
-- drivers/fpga/intel-m10-bmc-sec-update.c: the secure update of a card, as the operations of an
-- image load.
pub mod Defs
pub mod Rsu
pub mod Ops
pub mod Retimer
pub mod Outcomes
pub mod Sessions
pub mod Complete
pub mod Waits
pub mod Staging
pub mod Tests
