-- ===== src/Avmm.antt =====
-- drivers/base/regmap/regmap-spi-avmm.c: register access over SPI, in three protocol layers.
pub mod Defs
pub mod Bytes
pub mod Tx
pub mod Frame
pub mod Prepare
pub mod Rx
pub mod Stream
pub mod Parse
pub mod Timing
pub mod Wire
pub mod Receive
pub mod Transfer
pub mod Access
pub mod Answer
pub mod Lengths
pub mod Limits
pub mod Tests
