-- ===== src/Lib.antt =====
-- The FPGA Device Feature List drivers: models of the parts that carry their logic.
--
-- The program is a set of Linux kernel drivers for FPGA cards. Modelled are:
-- * the bridge from SPI to the card's Avalon-MM bus, drivers/base/regmap/regmap-spi-avmm.c (Avmm):
--   register accesses become packets of bytes, in three layers (transactions, packets, words);
-- * the accelerator's DMA regions, drivers/fpga/dfl-afu-dma-region.c (Afu/Dma): user memory that is
--   pinned, mapped for DMA and kept in a search tree by its DMA address;
-- * the accelerator's MMIO regions, drivers/fpga/dfl-afu-region.c (Afu/Mmio): what a user process
--   may map of the device, side by side in the device file;
-- * the core of the device feature list, drivers/fpga/dfl.c (Dfl): the walk over the list that a
--   device carries in its registers, which collects the sub features with their resources,
--   parameters and interrupts, and the binding of eventfds to a sub feature's interrupts;
-- * the programming of a region, drivers/fpga/fpga-region.c, with the bridges of
--   drivers/fpga/fpga-bridge.c, and the load of an image, drivers/fpga/fpga-mgr.c (Fpga);
-- * the engine of partial reconfiguration as a driver of that manager,
--   drivers/fpga/dfl-fme-mgr.c (Fme/Mgr);
-- * the upload of an image by a user process, drivers/fpga/fpga-image-load.c (ImageLoad): a worker
--   calls the operations of a device while the process may ask for its status or cancel;
-- * the operations of such a device for secure updates, drivers/fpga/intel-m10-bmc-sec-update.c
--   (SecUpdate), which talk to the board controller by its doorbell register, through the gate of
--   drivers/mfd/intel-m10-bmc-core.c;
-- * the flash behind the board controller, drivers/mfd/intel-m10-bmc-pmci.c (Pmci): transfers by a
--   FIFO of words. Its lock stands with SecUpdate, which takes it.
--
-- Conventions. Numbers are natural numbers; where the source's sums or products wrap, the model has
-- the remainder by the power of 2. Functions carry the names of the source. An error is the positive
-- error number (Base/Errors). A buffer is the list of its bytes, a pointer into it a list's length.
-- Locks are left out where one is held over the whole operation: each operation is then a function
-- from state to state.
--
-- Avmm: Defs has the special characters and sizes, Bytes byte order and word swap, Tx the transmit
-- side (br_trans_tx_prepare, br_pkt_phy_tx_prepare), Rx the receive side
-- (br_do_rx_and_pkt_phy_parse), Transfer the responses, do_reg_access and the regmap bus operations.
-- The transmit loop has fuel 25: each round writes a byte of phy_buf, which has 25 free bytes behind
-- the packet's head, and ends by itself when they are used. The receive loop is given the finite
-- list of what spi_read and jiffies return; where the list ends before the loop does, the result
-- `waiting` says so. Frame describes the packet independently of the loop that writes it, Parse says
-- which streams of bytes complete a packet (Stream and Lengths have its steps), Timing which words
-- move the receive loop's deadline and which may come behind it, and Wire the bytes of the words in
-- order; Prepare, Receive, Access, Answer and Limits have the proofs.
--
-- Afu/Dma: Region has the region and its containment test, Tree the search tree, Map the pinning,
-- mapping, unmapping and destruction with a ledger of what the kernel has given out. The kernel's
-- rebalancing and removal of tree nodes come as a record with their effect on the order of the nodes;
-- page pinning, accounting, allocation and the DMA API as the functions of an environment. Spaced has
-- the invariant of the tree; Search, Link, Insert, Account, Balance and RoundTrip have the proofs.
--
-- Afu/Mmio has the operations, Afu/Mmio/Layout the proofs.
--
-- Dfl: Field has the register fields of drivers/fpga/dfl.h, Param the parameter blocks and the sizes,
-- Feature a sub feature's creation (create_feature_instance), Walk the walk (parse_feature_list) with
-- the commit of feature devices. `readq` gives the content of the registers. The loops over sizes are
-- on fuel, with `none` where it is used up, because there are devices on which they do not end; the
-- walk itself has the region's length as fuel, and each round goes on by a byte at least. The
-- reservation and the mapping of a region and the making and registration of a feature device come as
-- statuses. Irq has the interrupt triggers (do_set_irq_trigger, dfl_fpga_set_irq_triggers,
-- dfl_feature_ioctl_set_irq), with a ledger of names, eventfd references and handlers.
--
-- Fpga: Bridge has a bridge and the walks over a list of them, Region fpga_region_program_fpga with
-- its labels (err_put_br, err_unlock_mgr) as functions. The load, the bridges' operations and the
-- region's get_bridges come as statuses; the state keeps the bridges as they were at each load.
--
-- Fpga/Mgr: Defs has the calls of a driver (struct fpga_manager_ops), Prepare the header and
-- fpga_mgr_write_init, Load the writing and fpga_mgr_load with its three sources; Prepared, Outcome,
-- Ends and Written have the proofs. A driver is a record of functions on a state of its own. A
-- scatter list is the list of its chunks; the kernel's walks over it (sg_miter_skip,
-- sg_pcopy_to_buffer), krealloc and the pages of a buffer are parameters. The loop that reads ever
-- more of the header is on fuel; it grows the copy by a byte at least in each round, so that the
-- image's size bounds it.
--
-- Fme: Mgr has the operations of the engine (fme_mgr_ops) on the registers of a device, Sent, Clean
-- and Status the proofs. The accesses and readq_poll_timeout are parameters. The wait for credits is
-- recursive on the delays that are left of the time limit.
--
-- ImageLoad: Defs has the state (struct fw_upload_priv) with a ledger of what is out, Worker
-- fw_upload_main, cut into steps at each point where another thread can come between (Pc has the
-- places), Calls open, release and the ioctls, each one step under the lock, Steps the relation of
-- all their interleavings. What the device's operations return is a record of answers that may
-- differ at each step. Invariant, Sound, Kept, Safety and Ends have the proofs, Races what happens
-- to a process that does not wait. A flush of the work is the step `flushed`, which a release that
-- found the upload not idle takes when the worker is quiet.
--
-- SecUpdate: Defs has the card (struct intel_m10bmc with its register map and the kernel's timers as
-- functions on a device's state) and the gate, Rsu the doorbell protocol, Ops the operations, Retimer
-- the retimer's EEPROM load. Sessions, Outcomes, Complete and Waits have the proofs, Staging what
-- becomes of the rest of a block. read_poll_timeout and the accesses of the regmap are parameters. The
-- waits by msleep are on fuel; a clock bounds it by the sleeps that are left to any time.
--
-- Pmci: Defs has the transfers on the words of the FIFO, Write and Read the proofs. Whether the FIFO
-- is ready in time is a list of Booleans, one for each block.
--
-- Not modelled: the FME and AFU character devices, with the call that starts a partial
-- reconfiguration (drivers/fpga/dfl-fme-pr.c), registration of managers,
-- bridges, regions and uploads, the performance counters, the board controller's other parts, the
-- network drivers, and the glue to PCI and the platform bus.
mod Base
pub mod Avmm
pub mod Afu
pub mod Dfl
pub mod Fpga
pub mod ImageLoad
pub mod SecUpdate
pub mod Pmci
pub mod Fme
