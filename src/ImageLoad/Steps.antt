-- ===== src/ImageLoad/Steps.antt =====
-- drivers/fpga/fpga-image-load.c: the steps of the worker and of a user process, in any order.
use linux_dfl_backport.Base.{ℕ, ◌≤◌, ◌<◌, ◌^◌, ◌≡◌, Bool, false}
use linux_dfl_backport.ImageLoad.Defs.{off, Upload, registered}
use linux_dfl_backport.ImageLoad.Worker.{Answers, fw_upload_main}
use linux_dfl_backport.ImageLoad.Calls.{
  Command, write, fpga_image_load_ioctl, fpga_image_load_open, fpga_image_load_release, close_exit,
}

-- The worker is not running, and no work waits for it.
abbrev pub Quiet : Upload → Type 0
Quiet u = (u.pc ≡ off) × (u.queued ≡ false)

-- The write operation of a device returns the size that it wrote, of what it was given.
abbrev pub WritesWithin : Answers → Type 0
WritesWithin a = (offset size : ℕ) → (a.write offset size).1 ≤ size

-- A user process that waits for the worker before it starts the next upload; its sizes are 32-bit
-- numbers. The operations of the device may answer otherwise at every step.
abbrev pub Waits : Upload → Command → Type 0
Waits u (write c) = Quiet u × (c.size < 2 ^ 32)
Waits u _ = Unit {0}

pub data Step (u v : Upload) : Type 0 where
  works : (a : Answers) → WritesWithin a → v ≡ fw_upload_main a u → Step u v
  calls : (c : Command) → Waits u c → v ≡ (fpga_image_load_ioctl c u).0 → Step u v
  opens : v ≡ (fpga_image_load_open u).0 → Step u v
  releases : v ≡ (fpga_image_load_release u).0 → Step u v
  flushed : Quiet u → v ≡ close_exit u → Step u v

-- The states of a device from its registration on.
pub data Reach (cleanup : Bool) : Upload → Type 0 where
  start : Reach cleanup (registered cleanup)
  later : {u v : Upload} → Reach cleanup u → Step u v → Reach cleanup v
