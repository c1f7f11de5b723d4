-- ===== src/ImageLoad.antt =====
-- drivers/fpga/fpga-image-load.c: the upload of an image by a worker, and the calls of the user that
-- run beside it.
pub mod Defs
pub mod Worker
pub mod Calls
pub mod Steps
pub mod Invariant
pub mod Sound
pub mod Kept
pub mod Safety
pub mod Ends
pub mod Races
pub mod Tests
